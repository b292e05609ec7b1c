-- ===== src/Mam/Examples.antt =====
-- Examples of messages, and of the sponge, with a permutation that turns the state by one trit.
use entangled.Prelude.{
  concat, ◌≡◌, ◌≢◌, ◌↔◌, ◌≤◌, ◌<◌, refl, inl, inr, true, false, List, [], ◌∷◌, ◌++◌, ◌-◌, ◌+◌,
  arith, All, All-append, length, length-append, take, drop, map, replicate,
}
use entangled.Prelude.Int.{ℤ, pos, negsuc}
use entangled.Outcome.Retcode.{rc_mam_pb3_eof, rc_mam_pb3_bad_mac}
use entangled.Trinary.Trit.{IsTrit}
use entangled.Mam.Trits.Laws.{length-replicate, replicate-IsTrit}
use entangled.Mam.SizeT.{
  got, error, trytes_loop, size_t_trytes, sizeof_size_t, encode_size_t, decode_size_t,
}
use entangled.Mam.SizeT.RoundTrip.{zeros, decode_size_t-encode_size_t}
use entangled.Mam.Spongos.{absorb, hash, hashn, Spongos, rate, width, squeeze, encr, decr}
use entangled.Mam.Spongos.Loop.{IsValid, IsTransform}
use entangled.Mam.Spongos.Absorb.Stream.{absorb-absorb}
use entangled.Mam.Spongos.Cipher.{decr-encr}
use entangled.Mam.Sponge
use entangled.Mam.Sponge.Cipher.{IsState, decr-encr_sponge}
use entangled.Mam.Sponge.Several.{absorbn-absorb}
use entangled.Mam.Sponge.Collision.{hash-collision}
use entangled.Mam.Pb3.{unwrap_squeeze_ntrytes, sizeof_ntrytes}
use entangled.Mam.Pb3.Authentic.{unwrap_squeeze_ntrytes-answers}
use entangled.Mam.Pb3.Fields.{Field, shape, message_size, wrap_message, unwrap_message}
use entangled.Mam.Pb3.Fields.RoundTrip.{unwrap_message-wrap_message}

abbrev turn : List ℤ → List ℤ
turn [] = []
turn (t ∷ s) = s ++ (t ∷ [])

length-turn : (s : List ℤ) → length s ≡ width → length (turn s) ≡ width
length-turn [] h = h
length-turn (t ∷ s) h = omega (arith, length-append s (t ∷ []), h)

turn-trits : (s : List ℤ) → length s ≡ width → All IsTrit s → All IsTrit (turn s)
turn-trits [] h t = tt
turn-trits (a ∷ s) h (ha, hs) = All-append IsTrit s (a ∷ []) hs (ha, tt)

turn-IsTransform : IsTransform turn
turn-IsTransform = record { transform_length = length-turn; transform_trits = turn-trits }

-- A state with two trits left in the outer part.
abbrev late : Spongos
late = record { state = replicate width (pos 1); pos = 484 }

late-IsValid : IsValid late
late-IsValid = record {
  positioned = omega arith;
  sized = length-replicate width (pos 1);
  trits = replicate-IsTrit width (pos 1) (inr (inr refl));
}

abbrev text : List ℤ
text = pos 1 ∷ negsuc 0 ∷ pos 0 ∷ []

text-trits : All IsTrit text
text-trits = (inr (inr refl), (inl refl, (inr (inl refl), tt)))

decr-encr_example :
    let (last, ciphertext) = encr turn true late text in
    (length ciphertext ≡ 3) × (decr turn false late ciphertext ≡ (last, text)) × IsValid last
decr-encr_example = decr-encr turn true false late text turn-IsTransform late-IsValid text-trits

thousand : sizeof_size_t 1000 ≡ 12
unfolding sizeof_size_t size_t_trytes trytes_loop
thousand = refl

decode_size_t-encode_size_t_example :
    let (written, rest) = encode_size_t 1000 (replicate 20 (pos 1)) in
    (decode_size_t (written ++ text) ≡ got 1000 text)
    × (length written ≡ sizeof_size_t 1000)
    × All IsTrit written
    × (rest ≡ zeros (20 - sizeof_size_t 1000))
decode_size_t-encode_size_t_example =
    decode_size_t-encode_size_t 1000 (replicate 20 (pos 1)) text (omega arith)
      (omega (arith, thousand))

unwrap_squeeze_ntrytes-answers_example :
    let output = (squeeze turn late (zeros 3)).1 in
    let r = (unwrap_squeeze_ntrytes turn late text 1).1 in
    ((r ≡ got tt (drop (sizeof_ntrytes 1) text))
      ↔ ((sizeof_ntrytes 1 ≤ length text) × (output ≡ take (sizeof_ntrytes 1) text)))
    × ((r ≡ error rc_mam_pb3_bad_mac (drop (sizeof_ntrytes 1) text))
        ↔ ((sizeof_ntrytes 1 ≤ length text) × (output ≢ take (sizeof_ntrytes 1) text)))
    × ((r ≡ error rc_mam_pb3_eof text) ↔ (length text < sizeof_ntrytes 1))
unwrap_squeeze_ntrytes-answers_example =
    unwrap_squeeze_ntrytes-answers turn late text (zeros 3) 1 turn-IsTransform late-IsValid refl

abbrev message : List Field
message =
    Field.tryte (negsuc 4)
    ∷ Field.trint (pos 1234)
    ∷ Field.size 1000
    ∷ Field.ntrytes text
    ∷ Field.secret text
    ∷ Field.mac 1
    ∷ []

message_room : message_size message ≤ length (replicate 40 (pos 0))
message_room = omega (arith, thousand)

unwrap_message-wrap_message_example :
    let (last, written, rest) = wrap_message turn true late (replicate 40 (pos 0)) message in
    (unwrap_message turn false late (written ++ text) (map shape message)
      ≡ (last, got message text))
    × (length written ≡ message_size message)
    × (length rest + message_size message ≡ 40)
    × IsValid last
unwrap_message-wrap_message_example =
    unwrap_message-wrap_message turn true false late (replicate 40 (pos 0)) message text
      turn-IsTransform late-IsValid
      (
        (omega arith, omega arith),
        ((omega arith, omega arith), (omega arith, (text-trits, (text-trits, (tt, tt))))),
      )
      message_room

hash-collision_example :
    Sponge.hash turn (replicate rate (pos 1) ++ text) 243 ≡ Sponge.hash turn text 243
hash-collision_example =
    hash-collision turn (replicate rate (pos 1)) text 243 (length-replicate rate (pos 1))
      (omega arith)

absorb-absorb_example :
    (absorb turn (absorb turn late text) text ≡ absorb turn late (text ++ text))
    × (hashn turn (text ∷ text ∷ []) (zeros 3) ≡ hash turn (concat (text ∷ text ∷ [])) (zeros 3))
absorb-absorb_example =
    absorb-absorb turn late text text (zeros 3) (text ∷ text ∷ []) turn-IsTransform late-IsValid
      text-trits text-trits (text-trits, (text-trits, tt))

ones-IsState : IsState (replicate width (pos 1))
ones-IsState = record {
  sized = length-replicate width (pos 1);
  trits = replicate-IsTrit width (pos 1) (inr (inr refl));
}

decr-encr_sponge_example :
    let (last, ciphertext) = Sponge.encr turn false (replicate width (pos 1)) text in
    (length ciphertext ≡ 3)
    × (Sponge.decr turn true (replicate width (pos 1)) ciphertext ≡ (last, text))
    × IsState last
decr-encr_sponge_example =
    decr-encr_sponge turn false true (replicate width (pos 1)) text turn-IsTransform ones-IsState
      text-trits

absorbn-absorb_example :
    Sponge.absorbn turn (pos 0) (replicate width (pos 1)) (text ∷ [] ∷ text ∷ [])
    ≡ Sponge.absorb turn (pos 0) (replicate width (pos 1)) (text ++ (text ++ []))
absorbn-absorb_example =
    absorbn-absorb turn (pos 0) (replicate width (pos 1)) (text ∷ [] ∷ text ∷ [])
