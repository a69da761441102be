-- ===== src/RoomCode/Trim.antt =====
-- What TrimRoomCodeInPlace of src/common/sf4e__NetUtil.cxx leaves of a text.
use sf4_netplay_launcher.Prelude.{
  ℕ, ◌≡◌, refl, ◌∙◌, ap, true, false, [], ◌∷◌, ◌++◌, Bytes, All, Bool-cases, inl, inr,
}
use sf4_netplay_launcher.RoomCode.{
  is_blank, trim_start, cons_unless_blank, trim_end, trim_room_code,
}

abbrev pub Blank : ℕ → Type 0
Blank c = is_blank c ≡ true

-- No blank at the front, and none at the end.
abbrev pub NoBlankFirst : Bytes → Type 0
NoBlankFirst [] = Unit
NoBlankFirst (c ∷ cs) = is_blank c ≡ false

abbrev pub NoBlankLast : Bytes → Type 0
NoBlankLast [] = Unit
NoBlankLast (c ∷ []) = is_blank c ≡ false
NoBlankLast (c ∷ d ∷ ds) = NoBlankLast (d ∷ ds)

trim_start_lem :
    (s : Bytes)
    → (before : Bytes) × (All Blank before
        × ((s ≡ before ++ trim_start s) × NoBlankFirst (trim_start s)))
unfolding trim_start
trim_start_lem [] = ([], (tt, (refl, tt)))
trim_start_lem (c ∷ cs) = elim (Bool-cases (is_blank c)) [
  | inl e ↦
      let (before, (blank, (p, first))) = trim_start_lem cs in
      rw e (c ∷ before, ((e, blank), (ap (λ x. c ∷ x) p, first)))
  | inr e ↦ rw e ([], (tt, (refl, e)))
]

pub trim_start-kept : (s : Bytes) → NoBlankFirst s → trim_start s ≡ s
unfolding trim_start
trim_start-kept [] h = refl
trim_start-kept (c ∷ cs) h = rw h refl

-- A text that ends on no blank is kept.
pub trim_end-kept : (s : Bytes) → NoBlankLast s → trim_end s ≡ s
unfolding trim_end
trim_end-kept [] h = refl
trim_end-kept (c ∷ []) h = rw h refl
trim_end-kept (c ∷ d ∷ ds) h = rw (trim_end-kept (d ∷ ds) h) refl

-- A text without its blanks at the end.
abbrev EndTrimmed : Bytes → Bytes → Type 0
EndTrimmed s t = (after : Bytes) × (All Blank after × ((s ≡ t ++ after) × NoBlankLast t))

cons-EndTrimmed :
    (c : ℕ) (cs t : Bytes) → EndTrimmed cs t → EndTrimmed (c ∷ cs) (cons_unless_blank c t)
cons-EndTrimmed c cs [] (after, (blank, (p, l))) = elim (Bool-cases (is_blank c)) [
  | inl e ↦ rw e (c ∷ after, ((e, blank), (ap (λ x. c ∷ x) p, tt)))
  | inr e ↦ rw e (after, (blank, (ap (λ x. c ∷ x) p, e)))
]
cons-EndTrimmed c cs (d ∷ ds) (after, (blank, (p, l))) = (after, (blank, (ap (λ x. c ∷ x) p, l)))

trim_end_lem : (s : Bytes) → EndTrimmed s (trim_end s)
unfolding trim_end
trim_end_lem [] = ([], (tt, (refl, tt)))
trim_end_lem (c ∷ cs) = cons-EndTrimmed c cs (trim_end cs) (trim_end_lem cs)

cons-first : (c : ℕ) (t : Bytes) → is_blank c ≡ false → NoBlankFirst (cons_unless_blank c t)
cons-first c [] h = rw h h
cons-first c (d ∷ ds) h = h

trim_end-first : (s : Bytes) → NoBlankFirst s → NoBlankFirst (trim_end s)
unfolding trim_end
trim_end-first [] h = tt
trim_end-first (c ∷ cs) h = cons-first c (trim_end cs) h

-- Trimming takes away blanks in front and behind and nothing else, and what it leaves has none there.
trim_room_code_exact :
    (s : Bytes)
    → (before : Bytes) × ((after : Bytes) × ((All Blank before × All Blank after)
          × ((s ≡ before ++ (trim_room_code s ++ after))
              × (NoBlankFirst (trim_room_code s) × NoBlankLast (trim_room_code s)))))
unfolding trim_room_code
trim_room_code_exact s =
    let (before, (front, (p, first))) = trim_start_lem s in
    let (after, (back, (q, last))) = trim_end_lem (trim_start s) in
    (
      before,
      (
        after,
        ((front, back), (p ∙ ap (λ x. before ++ x) q, (trim_end-first (trim_start s) first, last))),
      ),
    )

pub trim_room_code-kept : (s : Bytes) → NoBlankFirst s → NoBlankLast s → trim_room_code s ≡ s
unfolding trim_room_code
trim_room_code-kept s f l = rw (trim_start-kept s f) (trim_end-kept s l)
