-- ===== src/Backups/Reader.antt =====
-- What a caller that reads a body until io.EOF gets.
use tsdb_operator.Base.{
  ℕ, ◌+◌, ◌-◌, ◌<◌, List, [], ◌∷◌, ◌++◌, Option, none, some, leb, length, take, drop, ◌≡◌, refl,
  sym, ap, ◌∙◌, All, arith, Bool-cases, inl, inr, length-drop, drop-length-take, take-drop,
  length-take_pos,
}
use tsdb_operator.Backups.{ByteReader, bytes_reader, read}

module _ {Byte : Type 0} where
  abbrev joined : Option (List Byte) → Option (List Byte) → Option (List Byte)
  joined none rest = some []
  joined (some p) none = none
  joined (some p) (some bs) = some (p ++ bs)

  -- The bytes of the calls of `Read`, each with its room, up to io.EOF; `none` if that did not come.
  unfoldable pub drain : List ℕ → ByteReader Byte → Option (List Byte)
  unfolding read
  drain [] r = none
  drain (room ∷ rooms) r = let (x, r') = read room r in joined x (drain rooms r')

  empty : (xs : List Byte) → length xs ≡ 0 → xs ≡ []
  empty [] e = refl
  empty (x ∷ xs) e = absurd (omega (arith, e))

  drain-from :
      (rooms : List ℕ) (b : List Byte) (i : ℕ)
      → All (λ room. 0 < room) rooms
      → length b - i < length rooms
      → drain rooms (record { b = b; i = i }) ≡ some (drop i b)
  unfolding drain
  drain-from [] b i h few = absurd (omega (arith, few))
  drain-from (room ∷ rooms) b i (h, hs) few = elim (Bool-cases (leb (length b) i)) [
    | inl over ↦
        let done : length (drop i b) ≡ 0 = ground (arith, length-drop i b) in
        rw over (ap some (sym (empty (drop i b) done)))
    | inr more ↦
        let p = take room (drop i b) in
        let left : 0 < length (drop i b) = ground (arith, length-drop i b) in
        let step : 0 < length p = length-take_pos room (drop i b) h left in
        let rest = drain-from rooms b (i + length p) hs (ground (arith, few, step, more)) in
        rw more (
          rw rest (
            ap (λ bs. some (p ++ bs)) (drop-length-take i room b)
            ∙ ap some (take-drop room (drop i b))))
  ]

  -- A caller that always gives room for at least one byte gets io.EOF after at most one call more
  -- than there are bytes, and until then exactly the bytes, in their order.
  pub drain-bytes_reader :
      (rooms : List ℕ) (b : List Byte)
      → All (λ room. 0 < room) rooms
      → length b < length rooms
      → drain rooms (bytes_reader b) ≡ some b
  drain-bytes_reader rooms b h enough =
      drain-from rooms b 0 h (omega (arith, enough)) ∙ ap some (drop_zero b)
    where
      drop_zero : (xs : List Byte) → drop 0 xs ≡ xs
      drop_zero [] = refl
      drop_zero (x ∷ xs) = refl
