-- ===== src/Booths/Examples.antt =====
-- The booth theorems at a fair with one stand.
use backbone_events.Base.{
  ◌≤◌, ◌≡◌, refl, none, some, List, [], ◌∷◌, count_where, delete_where, arith,
}
use backbone_events.Store.{Db, BoothRow, BoothState, BookingStatus, EventError, ok, err}
use backbone_events.Booths.{
  is_booth, of_booth, confirmed_for, is_occupied, freed, confirm_booking, delete_booth,
  release_booth,
}
use backbone_events.Booths.Exclusivity.{
  BoothCall, confirms, releases, calls, IsSound, calls-exclusive, confirm_booking-loser,
  delete_booth-fenced, release_booth-frees,
}
use backbone_events.Samples.{stand, booking, fair, taken_fair, value}

fair-IsSound : IsSound fair
fair-IsSound = record {
  tables = record {
    booth_key = λ id. ground arith;
    booking_key = λ id. ground arith;
    agrees = λ id. ground arith;
  };
}

abbrev busy_day : List BoothCall
busy_day = confirms 31 none ∷ confirms 32 none ∷ releases 21 none ∷ []

calls-exclusive_example :
    (count_where (confirmed_for 21) (calls busy_day fair).bookings ≤ 1)
    × (count_where (confirmed_for 21) (calls busy_day fair).bookings
        ≡ count_where (is_occupied 21) (calls busy_day fair).booths)
calls-exclusive_example = calls-exclusive busy_day fair 21 fair-IsSound

abbrev confirmed_fair : Db
confirmed_fair =
    (value ((booking 31 BookingStatus.confirmed, stand BoothState.unavailable), fair)
      (confirm_booking 31 none fair)).1

fair-confirmed :
    confirm_booking 31 none fair
    ≡ ok ((booking 31 BookingStatus.confirmed, stand BoothState.unavailable), confirmed_fair)
unfolding confirm_booking
fair-confirmed = refl

confirm_booking-loser_example :
    confirm_booking 32 none confirmed_fair ≡ err (EventError.booth_already_confirmed 21)
confirm_booking-loser_example =
    confirm_booking-loser 31 32 none none fair (booking 32 BookingStatus.pending)
      (booking 31 BookingStatus.confirmed, stand BoothState.unavailable) confirmed_fair
      fair-confirmed refl refl refl

abbrev idle_fair : Db
idle_fair = record fair { bookings = [] }

abbrev cleared_fair : Db
cleared_fair = (value (tt, fair) (delete_booth 21 none idle_fair)).1

idle_fair-deleted : delete_booth 21 none idle_fair ≡ ok (tt, cleared_fair)
unfolding delete_booth
idle_fair-deleted = refl

delete_booth-fenced_example :
    (count_where (of_booth 21) idle_fair.bookings ≡ 0)
    × (cleared_fair.bookings ≡ idle_fair.bookings)
    × (cleared_fair.booths ≡ delete_where (is_booth 21) idle_fair.booths)
    × ((b : BoothRow) × (some (stand BoothState.available) ≡ some b)
        × (b.sale_order_line_id ≡ none))
delete_booth-fenced_example = delete_booth-fenced 21 none idle_fair cleared_fair idle_fair-deleted

release_booth-frees_example :
    (db' : Db) × (release_booth 21 none taken_fair ≡ ok (freed (stand BoothState.unavailable), db'))
    × (count_where (of_booth 21) db'.bookings ≡ 0)
    × (count_where (is_occupied 21) db'.booths ≡ 0)
    × (count_where (confirmed_for 22) db'.bookings
        ≡ count_where (confirmed_for 22) taken_fair.bookings)
    × (count_where (is_occupied 22) db'.booths ≡ count_where (is_occupied 22) taken_fair.booths)
release_booth-frees_example = release_booth-frees 21 22 none taken_fair refl refl
