-- ===== src/Obd/Dtc/Laws.antt =====
-- The trouble codes of Mode 03 on the wire, and a tester that reads them by the count byte.
use ecu_simulator.Prelude.{
  ℕ, suc, ◌+◌, ◌*◌, ◌/◌, ◌%◌, ◌^◌, ◌<◌, ◌≡◌, refl, ap, ◌∙◌, inl, inr, ◌&&◌, Option, none, some,
  List, [], ◌∷◌, ◌++◌, arith, ltb, leb, ◌==◌, if◌then◌else◌, lt→ltb, Bool-cases, length, All,
  length-append, traverse, ok,
}
use ecu_simulator.Bytes.{Bytes, big_endian, to_bytes}
use ecu_simulator.Bytes.Laws.{length-big_endian}
use ecu_simulator.Dtc.Codes.{is_valid, code_number}
use ecu_simulator.Dtc.Codes.Valid.{code_number-valid}
use ecu_simulator.Dtc.Store.{DtcState}
use ecu_simulator.Obd.Dtc.{encodable, joined, framed, encode}

abbrev AreWords : List ℕ → Type 0
AreWords = All (λ n. n < 65536)

-- The codes that are encodable all have a number of two bytes.
numbers :
    (states : List DtcState)
    → (ns : List ℕ) × (traverse (λ (s : DtcState). code_number s.code) (encodable states) ≡ ok ns)
      × AreWords ns
      × (length ns ≡ length (encodable states))
numbers [] = ([], refl, tt, refl)
numbers (s ∷ rest) =
    let (ns, collected, small, count) = numbers rest in
    elim (Bool-cases (is_valid s.code)) [
      | inl good ↦
          let (n, number, fits) = code_number-valid s.code good in
          (n ∷ ns, rw (good, number, collected), (fits, small), rw good (ap suc count))
      | inr bad ↦ (ns, rw (bad, collected), small, rw bad count)
    ]

-- Two bytes at a time, as a tester reads them.
unfoldable pub read_words : Bytes → List ℕ
read_words [] = []
read_words (high ∷ []) = []
read_words (high ∷ low ∷ rest) = (high * 256 + low) ∷ read_words rest

read_words-cons :
    (n : ℕ) (body : Bytes) → n < 65536 → read_words (big_endian 2 n ++ body) ≡ n ∷ read_words body
unfolding read_words big_endian
read_words-cons n body h =
    let whole : n / 256 ^ 1 % 256 * 256 + n / 256 ^ 0 % 256 ≡ n = omega (arith, h) in
    ap (λ (w : ℕ). w ∷ read_words body) whole

to_bytes-two : (n : ℕ) → n < 65536 → to_bytes 2 n ≡ ok (big_endian 2 n)
unfolding to_bytes
to_bytes-two n h = rw (lt→ltb n 65536 h)

joined-ok :
    (ns : List ℕ)
    → AreWords ns
    → (body : Bytes) × (joined ns ≡ ok body)
      × (length body ≡ 2 * length ns)
      × (read_words body ≡ ns)
unfolding joined
joined-ok [] h = ([], refl, refl, unfold read_words in refl)
joined-ok (n ∷ rest) h =
    let (body, made, size, words) = joined-ok rest h.1 in
    (
      big_endian 2 n ++ body,
      rw (to_bytes-two n h.0, made),
      omega (arith, length-append (big_endian 2 n) body, length-big_endian 2 n, size),
      read_words-cons n body h.0 ∙ ap (λ (ws : List ℕ). n ∷ ws) words,
    )

-- A tester's reading: the count byte must agree with what follows.
unfoldable pub read_codes : Bytes → Option (List ℕ)
read_codes [] = none
read_codes (count ∷ body) = if length body == 2 * count then some (read_words body) else none

framed-read :
    (ns : List ℕ)
    → AreWords ns
    → (bs : Bytes) × (framed ns ≡ ok bs)
      × (read_codes bs ≡ some (if ltb 0 (length ns) && leb (length ns) 255 then ns else []))
unfolding framed
framed-read ns h = elim (Bool-cases (ltb 0 (length ns) && leb (length ns) 255)) [
  | inl shown ↦
      let (body, made, size, words) = joined-ok ns h in
      (
        length ns ∷ body,
        rw (shown, made),
        rw shown (unfold read_codes in ground (arith, size, words)),
      )
  | inr hidden ↦ (0 ∷ [], rw hidden, rw hidden (unfold read_codes read_words in refl))
]

-- Mode 03's data is always produced. A tester who reads it by its count byte gets the number of
-- each encodable code in store order, if there are at least one and at most 255, and else none.
pub encode-read :
    (states : List DtcState)
    → (ns : List ℕ) × (bs : Bytes) × (traverse
          (λ (s : DtcState). code_number s.code)
          (encodable states)
        ≡ ok ns)
      × (encode states ≡ ok bs)
      × (read_codes bs ≡ some (if ltb 0 (length ns) && leb (length ns) 255 then ns else []))
unfolding encode
encode-read states =
    let (ns, collected, small, _) = numbers states in
    let (bs, made, seen) = framed-read ns small in (ns, bs, collected, rw (collected, made), seen)
