-- ===== src/Examples/Wire.antt =====
-- Concrete records, names, keys, ports and dials.
use hawse.Base.{ℕ, ◌≤◌, ◌≡◌, ◌↔◌, refl, List, [], ◌∷◌, true, none, some, length, arith}
use hawse.Base.Text.{codes}
use hawse.Allow.{Nets, Laws, effective}
use hawse.Allow.Effective.{Means, effective-Means}
use hawse.Proto.Record.{finish_tag, reset_head, Head, carries, max_head, decode}
use hawse.Proto.Record.Wire.{encode, IsHead, decode-encode, encode-decode}
use hawse.Proto.Name.{IsName, validate, validate_iff}
use hawse.Proto.Key.{Base64, PublicKey, ok, parse, display, parse-display}
use hawse.Proto.Port.Text.{parse_range, parse_span, parse_port, parse_request}
use hawse.Proto.Port.Bounds.{Accepts, IsRange, IsSpan, IsPort, IsRequest, parse-bounds}
use hawse.Records.Reader
use hawse.Records.Reader.{
  Reader, Reading, collecting, Polled, poll_read, Arrival, reset_by, finished,
}
use hawse.Records.Refinement.{Polls, poll_read-Polls}
use hawse.Records.Writer
use hawse.Records.Writer.{Writer, poll_write, poll_flush, poll_shutdown, reset_flushed, done}
use hawse.Records.Calls.{
  new-Carries, Appends, poll_write-Appends, Ends, poll_shutdown-Ends, reset_flushed-Ends,
}
use hawse.Client.Race
use hawse.Client.Backoff

seven : Head
seven = carries 7

decode-encode_example : (decode (encode seven) ≡ some seven) × (length (encode seven) ≤ max_head)
unfolding seven
decode-encode_example = decode-encode seven (omega arith)

encode-decode_example : IsHead (carries 258) × (encode (carries 258) ≡ 0 ∷ 2 ∷ 1 ∷ [])
unfolding decode
encode-decode_example =
    encode-decode (0 ∷ 2 ∷ 1 ∷ []) (carries 258) (omega arith, (omega arith, (omega arith, tt)))
      refl

validate_example : (validate (codes "web-1") ≡ none) ↔ IsName (codes "web-1")
validate_example = validate_iff (codes "web-1")

abbrev plain : Base64
plain = record { encode = λ bytes. bytes; decode = λ text. some text }

abbrev zeros : PublicKey
zeros = record { bytes = codes "01234567890123456789012345678901" }

parse-display_example : parse plain (display plain zeros) ≡ ok zeros
parse-display_example = parse-display plain zeros (λ bytes. refl) refl

parse-bounds_example :
    Accepts IsRange (parse_range (codes "80-90/udp"))
    × Accepts IsSpan (parse_span (codes "80-90/udp"))
    × Accepts IsPort (parse_port (codes "80-90/udp"))
    × Accepts IsRequest (parse_request (codes "80-90/udp"))
parse-bounds_example = parse-bounds (codes "80-90/udp")

abbrev slow : Race.Dial ℕ ℕ
slow = record { takes = 9; result = Race.ok 1 }

abbrev quick : Race.Dial ℕ ℕ
quick = record { takes = 2; result = Race.ok 2 }

race_example : Race.Fair slow quick 3 (Race.race slow quick 3)
race_example = Race.race-Fair slow quick 3

abbrev fresh : Backoff.Backoff
fresh = record { failures = 0 }

abbrev reader : Reader
reader = Reader.new (Arrival.bytes (0 ∷ 2 ∷ 0 ∷ 7 ∷ 8 ∷ 1 ∷ []) ∷ [])

poll_read_example :
    (p : Polled) × (r' : Reader) × (poll_read 4 reader ≡ some (p, r')) × Polls 4 reader p r'
poll_read_example = poll_read-Polls 4 reader (omega arith)

abbrev accepts : List Writer.Accept
accepts = Writer.takes 4 ∷ Writer.stalls ∷ Writer.takes 99 ∷ []

poll_write_example :
    Appends (1 ∷ 2 ∷ []) [] (collecting []) (poll_write (1 ∷ 2 ∷ []) (Writer.new accepts))
poll_write_example =
    poll_write-Appends (1 ∷ 2 ∷ []) (Writer.new accepts) [] (collecting []) (new-Carries accepts)

poll_shutdown_example :
    Ends
      (Writer.new accepts)
      []
      (collecting [])
      (finish_tag ∷ [])
      finished
      (poll_shutdown (Writer.new accepts))
poll_shutdown_example =
    poll_shutdown-Ends (Writer.new accepts) [] (collecting []) (new-Carries accepts)

reset_flushed_example :
    Ends
      (Writer.new accepts)
      []
      (collecting [])
      (reset_head 18)
      (reset_by (some 18))
      (reset_flushed 18 (Writer.new accepts))
reset_flushed_example =
    reset_flushed-Ends 18 (Writer.new accepts) [] (collecting []) (omega arith)
      (new-Carries accepts)

-- One network: all of IPv4.
abbrev one_net : Nets
one_net = record {
  Net = Unit {0};
  same = λ a b. yes refl;
  trunc = λ a. a;
  covers = λ a b. true;
  holds = λ a ip. true;
  le = λ a b. true;
}

abbrev one_net_laws : Laws one_net
one_net_laws = record {
  trunc_holds = λ a ip. refl;
  covers_holds = λ a b ip h k. refl;
  nest = λ a b ip h k. refl;
}

effective_example : Means one_net one_net_laws (tt ∷ []) [] (effective one_net (tt ∷ []) [])
effective_example = effective-Means one_net one_net_laws (tt ∷ []) []
