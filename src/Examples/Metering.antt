-- ===== src/Examples/Metering.antt =====
-- A service whose connection opens and closes while another carries bytes.
use hawse.Base.{ℕ, List, [], ◌∷◌, arith}
use hawse.Base.Text.{Text, codes}
use hawse.Traffic.{
  Event, on, takes, opens, closes, carries_down, carries_up, datagram_up, drops, meter, run, new,
}
use hawse.Traffic.Tally.{
  calls_on, total, opened, bytes_down, bytes_up, went_down, went_up, lost, Held, done, opening,
  closing, carrying_down, giving, dropping, Fits, Tallied,
}
use hawse.Traffic.Totals.{run-Tallied}

abbrev web : Text
web = codes "web"

abbrev ssh : Text
ssh = codes "ssh"

abbrev a_day : List Event
a_day =
    on web opens
    ∷ on web (carries_down 1000)
    ∷ on ssh (carries_up 5)
    ∷ takes
    ∷ on web (datagram_up 3)
    ∷ on web closes
    ∷ on web (drops 2)
    ∷ []

web-Held : Held 0 (calls_on web a_day)
unfolding calls_on hawse.Base.Text.text_discrete hawse.Base.ℕ_discrete
web-Held = opening (carrying_down (giving (closing (dropping done))))

web-Fits : Fits (calls_on web a_day)
unfolding calls_on total opened bytes_down bytes_up went_down went_up lost
    hawse.Base.Text.text_discrete hawse.Base.ℕ_discrete
web-Fits = record {
  opened_fit = omega arith;
  down_fit = omega arith;
  up_fit = omega arith;
  datagrams_down_fit = omega arith;
  datagrams_up_fit = omega arith;
  lost_fit = omega arith;
}

run-Tallied_example : Tallied (calls_on web a_day) (meter web (run a_day new)).counts
run-Tallied_example = run-Tallied a_day web web-Held web-Fits
