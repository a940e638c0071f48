-- ===== src/Protocol/Writer/Writes.antt =====
-- What a writer does: it puts given bytes at its position when they fit.
use secure_pub_sub.Prelude.{
  ℕ, ◌+◌, ◌≤◌, ◌<◌, ◌≡◌, refl, sym, ap, ap₂, ◌∙◌, Bool, true, false, [], ◌∷◌, ◌++◌, append_assoc,
  arith, leb, ltb, leb→le, le→leb, lt→ltb, length, length-append, take, drop, length-take-le,
  length-drop, take-append-drop, ◌^◌, take-length_append, drop-length_append, drop-drop, Bytes,
  be_bytes, Result, ok, err, if◌then◌else◌, Bool-cases, inl, inr,
}
use secure_pub_sub.Protocol.Types.{Error, oversized}
use secure_pub_sub.Protocol.Writer
use secure_pub_sub.Protocol.Writer.{Writer, Writing, ◌>>◌, done, ensure}

-- The writer after these bytes.
abbrev pub put : Bytes → Writer → Writer
put xs w = record {
  output = take w.position w.output ++ (xs ++ drop (w.position + length xs) w.output);
  position = w.position + length xs;
}

abbrev pub put_if_fits : Bytes → Writer → Result Error Writer
put_if_fits xs w =
    if leb (w.position + length xs) (length w.output) then ok (put xs w) else err oversized

pub record Writes (m : Writing) (xs : Bytes) : Type 0 where
  pub run : (w : Writer) → w.position ≤ length w.output → m w ≡ put_if_fits xs w

pub Writes-raw : (xs : Bytes) → Writes (Writer.raw xs) xs
unfolding Writer.raw
Writes-raw xs = record { run = λ w h. refl }

pub Writes-u8 : (n : ℕ) → Writes (Writer.u8 n) (n ∷ [])
unfolding Writer.u8
Writes-u8 n = Writes-raw (n ∷ [])

pub Writes-u16 : (n : ℕ) → Writes (Writer.u16 n) (be_bytes 2 n)
unfolding Writer.u16
Writes-u16 n = Writes-raw (be_bytes 2 n)

pub Writes-u32 : (n : ℕ) → Writes (Writer.u32 n) (be_bytes 4 n)
unfolding Writer.u32
Writes-u32 n = Writes-raw (be_bytes 4 n)

module _ (w : Writer) (xs : Bytes) (fits : w.position + length xs ≤ length w.output) where
  length-written : length (take w.position w.output ++ xs) ≡ w.position + length xs
  length-written =
      length-append (take w.position w.output) xs
      ∙ ap (λ n. n + length xs) (length-take-le w.position w.output (omega arith))

  rest : Bytes
  rest = drop (w.position + length xs) w.output

  output-put : (put xs w).output ≡ (take w.position w.output ++ xs) ++ rest
  unfolding rest
  output-put = sym (append_assoc (take w.position w.output) xs rest)

  -- The length of the output stays the same.
  length-put : length (put xs w).output ≡ length w.output
  unfolding rest
  length-put =
      ap length output-put
      ∙ length-append (take w.position w.output ++ xs) rest
      ∙ omega (arith, length-written, length-drop (w.position + length xs) w.output, fits)

  taken : take (w.position + length xs) (put xs w).output ≡ take w.position w.output ++ xs
  taken =
      ap (take (w.position + length xs)) output-put
      ∙ take-length_append (w.position + length xs) (take w.position w.output ++ xs) rest
          length-written

  dropped :
      (n : ℕ)
      → drop (w.position + length xs + n) (put xs w).output
        ≡ drop (w.position + length xs + n) w.output
  unfolding rest
  dropped n =
      sym (drop-drop (w.position + length xs) n (put xs w).output)
      ∙ ap (drop n) (
          ap (drop (w.position + length xs)) output-put
          ∙ drop-length_append (w.position + length xs) (take w.position w.output ++ xs) rest
              length-written)
      ∙ drop-drop (w.position + length xs) n w.output

  put-append : (ys : Bytes) → put ys (put xs w) ≡ put (xs ++ ys) w
  put-append ys =
      let end : w.position + length xs + length ys ≡ w.position + length (xs ++ ys) =
        omega (arith, length-append xs ys) in
      let whole : (put ys (put xs w)).output ≡ (put (xs ++ ys) w).output =
        ap₂ (λ a b. a ++ (ys ++ b)) taken (dropped (length ys))
        ∙ append_assoc (take w.position w.output) xs
            (ys ++ drop (w.position + length xs + length ys) w.output)
        ∙ ap (λ z. take w.position w.output ++ z)
            (sym (append_assoc xs ys (drop (w.position + length xs + length ys) w.output))
              ∙ ap (λ n. (xs ++ ys) ++ drop n w.output) end) in
      λ i. record { output = whole i; position = end i }

abbrev continue : Writing → Result Error Writer → Result Error Writer
continue k (ok w) = k w
continue k (err e) = err e

-- One writer after the other.
pub Writes-seq :
    (m k : Writing) (xs ys : Bytes) → Writes m xs → Writes k ys → Writes (m >> k) (xs ++ ys)
Writes-seq m k xs ys r s = record { run = λ w h. go w h }
  where
    go : (w : Writer) → w.position ≤ length w.output → (m >> k) w ≡ put_if_fits (xs ++ ys) w
    go w h = elim (Bool-cases (leb (w.position + length xs) (length w.output))) [
      | inl l ↦
          let fits = leb→le _ _ l in
          let same = length-put w xs fits in
          let after : k (put xs w) ≡ put_if_fits ys (put xs w) =
            s.run (put xs w) (omega (arith, same, fits)) in
          let one : m w ≡ ok (put xs w) = r.run w h ∙ rw l refl in
          let ends : (w.position + length xs) + length ys ≡ w.position + length (xs ++ ys) =
            omega (arith, length-append xs ys) in
          ap (continue k) one
          ∙ (after
              ∙ ap₂ (λ n b. if leb n b then ok (put ys (put xs w)) else err oversized) ends same
              ∙ ap
                  (λ v.
                    if leb (w.position + length (xs ++ ys)) (length w.output)
                    then ok v
                    else err oversized)
                  (put-append w xs fits ys))
      | inr l ↦
          let one : m w ≡ err oversized = r.run w h ∙ rw l refl in
          let over : leb (w.position + length (xs ++ ys)) (length w.output) ≡ false =
            ground (arith, length-append xs ys) in
          ap (continue k) one ∙ rw over refl
    ]

pub Writes-ensure :
    (b : Bool) (e : Error) (m : Writing) (xs : Bytes)
    → b ≡ true
    → Writes m xs
    → Writes (ensure b e >> m) xs
Writes-ensure b e m xs t r = record { run = λ w h. rw t (r.run w h) }

pub Writes-done : Writes done []
Writes-done = record {
  run = λ w h.
      let room : leb (w.position + 0) (length w.output) ≡ true = le→leb _ _ (omega arith) in
      let here : w.position ≡ w.position + 0 = omega arith in
      let same : w.output ≡ (put [] w).output =
        sym (take-append-drop w.position w.output)
        ∙ ap (λ n. take w.position w.output ++ drop n w.output) here in
      rw room (λ i. ok (record { output = same i; position = here i }));
}

pub Writes-bytes_u16 :
    (bs : Bytes) (maximum : ℕ)
    → length bs ≤ maximum
    → maximum < 2 ^ 16
    → Writes (Writer.bytes_u16 bs maximum) (be_bytes 2 (length bs) ++ bs)
unfolding Writer.bytes_u16
Writes-bytes_u16 bs maximum short small =
    Writes-ensure (leb (length bs) maximum) oversized _ _ (le→leb _ _ short) (
      Writes-ensure (ltb (length bs) (2 ^ 16)) oversized _ _
        (lt→ltb _ _ (omega (arith, short, small)))
        (Writes-seq (Writer.u16 (length bs)) (Writer.raw bs) (be_bytes 2 (length bs)) bs
          (Writes-u16 (length bs)) (Writes-raw bs)))
