-- ===== src/Voter/Winner.antt =====
-- Who wins a vote.
use vision_park_ai.Prelude.{
  ℕ, ◌≤◌, ◌≡◌, ◌⊎◌, refl, sym, Bool, true, List, [], ◌∷◌, arith, ltb, ◌==◌, select, Bool-cases, inl,
  inr,
}
use mathlib.Core.Path.{subst}
use native.Mathlib.Decide.{dec_le}
use vision_park_ai.Prelude.Text.{Text, text_eq, text_eq_sound, text_eq_refl}
use vision_park_ai.Voter.{
  VotingEntry, has_plate, frequency_of, best_of, is_listed, keys, plates, highest, first_max,
  candidates,
}

later : (q p : Text) (ps : List Text) → is_listed q ps ≡ true → is_listed q (p ∷ ps) ≡ true
later q p ps h = elim (Bool-cases (text_eq p q)) [ inl e ↦ rw e | inr e ↦ rw e h ]

module _ (f : Text → ℕ) where
  highest_above : (q : Text) (ps : List Text) → is_listed q ps ≡ true → f q ≤ highest f ps
  highest_above q [] h = cc
  highest_above q (p ∷ ps) h = elim (Bool-cases (text_eq p q)) [
    | inl e ↦ rw (text_eq_sound p q e) (omega arith)
    | inr e ↦ omega (arith, highest_above q ps (rw e at h))
  ]

  -- The highest value is a member's.
  pub highest_reached :
      (p : Text) (ps : List Text)
      → (q : Text) × (is_listed q (p ∷ ps) ≡ true) × (f q ≡ highest f (p ∷ ps))
  highest_reached p [] = (p, rw (text_eq_refl p), omega arith)
  highest_reached p (x ∷ ps) =
      let (q, listed, reached) = highest_reached x ps in
      elim (Bool-cases (ltb (f p) (highest f (x ∷ ps)))) [
        | inl e ↦ (
          q,
          elim (Bool-cases (text_eq p q)) [ inl t ↦ rw t | inr t ↦ rw t listed ],
          ground (arith, reached),
        )
        | inr e ↦ (p, rw (text_eq_refl p), ground arith)
      ]

  -- No member is better than the first best.
  pub first_max_above :
      (q p : Text) (ps : List Text) → is_listed q (p ∷ ps) ≡ true → f q ≤ f (first_max f p ps)
  first_max_above q p [] h = elim (Bool-cases (text_eq p q)) [
    | inl e ↦ rw (text_eq_sound p q e) (omega arith)
    | inr e ↦ cc (rw e at h)
  ]
  first_max_above q p (x ∷ ps) h = elim (Bool-cases (ltb (f p) (f x))) [
    | inl e ↦
        let above : f x ≤ f (first_max f x ps) = first_max_above x x ps (rw (text_eq_refl x)) in
        elim (Bool-cases (text_eq p q)) [
          | inl t ↦
              let same : p ≡ q = text_eq_sound p q t in
              let better : f p ≤ f x = ground arith in rw (sym same, e) (omega arith)
          | inr t ↦ rw e (first_max_above q x ps (rw t at h))
        ]
    | inr e ↦
        let above : f p ≤ f (first_max f p ps) = first_max_above p p ps (rw (text_eq_refl p)) in
        elim (Bool-cases (text_eq p q)) [
          | inl t ↦ rw (sym (text_eq_sound p q t), e) above
          | inr t ↦ elim (Bool-cases (text_eq x q)) [
            | inl y ↦
                let worse : f x ≤ f p = ground arith in
                rw (sym (text_eq_sound x q y), e) (omega arith)
            | inr y ↦
                let rest : is_listed q ps ≡ true = rw (t, y) at h in
                rw e (first_max_above q p ps (later q p ps rest))
          ]
        ]
  ]

pub listed-select :
    (t : Text → Bool) (q : Text) (ps : List Text)
    → t q ≡ true
    → is_listed q ps ≡ true
    → is_listed q (select t ps) ≡ true
listed-select t q [] h k = k
listed-select t q (p ∷ ps) h k = elim (Bool-cases (text_eq p q)) [
  | inl e ↦ let here : t p ≡ true = rw (text_eq_sound p q e) h in rw (here, e)
  | inr e ↦ elim (Bool-cases (t p)) [
    | inl s ↦ rw (s, e) (listed-select t q ps h (rw e at k))
    | inr s ↦ rw s (listed-select t q ps h (rw e at k))
  ]
]

pub select-listed :
    (t : Text → Bool) (q : Text) (ps : List Text) → is_listed q (select t ps) ≡ true → t q ≡ true
select-listed t q [] h = cc
select-listed t q (p ∷ ps) h = elim (Bool-cases (t p)) [
  | inr s ↦ select-listed t q ps (rw s at h)
  | inl s ↦ elim (Bool-cases (text_eq p q)) [
    | inl e ↦ rw (text_eq_sound p q e) at s
    | inr e ↦ select-listed t q ps (rw (s, e) at h)
  ]
]

insert_listed :
    (q p x : Text) (ps : List Text) → is_listed q (p ∷ ps) ≡ true → is_listed q (p ∷ x ∷ ps) ≡ true
insert_listed q p x ps h = elim (Bool-cases (text_eq p q)) [
  | inl t ↦ rw t
  | inr t ↦ rw t (later q x ps (rw t at h))
]

pub first_max-listed :
    (f : Text → ℕ) (p : Text) (ps : List Text) → is_listed (first_max f p ps) (p ∷ ps) ≡ true
first_max-listed f p [] = rw (text_eq_refl p)
first_max-listed f p (x ∷ ps) = elim (Bool-cases (ltb (f p) (f x))) [
  | inl e ↦
      let same : first_max f p (x ∷ ps) ≡ first_max f x ps = rw e in
      subst (λ (w : Text). is_listed w (p ∷ x ∷ ps) ≡ true) (sym same)
        (later (first_max f x ps) p (x ∷ ps) (first_max-listed f x ps))
  | inr e ↦
      let same : first_max f p (x ∷ ps) ≡ first_max f p ps = rw e in
      subst (λ (w : Text). is_listed w (p ∷ x ∷ ps) ≡ true) (sym same)
        (insert_listed (first_max f p ps) p x ps (first_max-listed f p ps))
]

-- A plate that an entry has is a key, or was seen before.
pub keys_listed :
    (q : Text) (es : List VotingEntry) (seen : List Text)
    → 1 ≤ frequency_of q es
    → (is_listed q (keys es seen) ≡ true) ⊎ (is_listed q seen ≡ true)
keys_listed q [] seen h = absurd (omega arith)
keys_listed q (e ∷ es) seen h = elim (Bool-cases (text_eq e.plate q)) [
  | inl t ↦
      let same : e.plate ≡ q = text_eq_sound e.plate q t in
      elim (Bool-cases (is_listed e.plate seen)) [
        | inl s ↦ inr (rw same at s)
        | inr s ↦ inl (rw (s, t))
      ]
  | inr t ↦
      let fewer : 1 ≤ frequency_of q es = rw t at h in
      elim (Bool-cases (is_listed e.plate seen)) [
        | inl s ↦ rw s (keys_listed q es seen fewer)
        | inr s ↦ elim (keys_listed q es (e.plate ∷ seen) fewer) [
          | inl k ↦ inl (rw (s, t) k)
          | inr k ↦ inr (rw t at k)
        ]
      ]
]

select_nothing :
    (q : Text) (es : List VotingEntry) → frequency_of q es ≡ 0 → select (has_plate q) es ≡ []
select_nothing q [] h = refl
select_nothing q (e ∷ es) h = elim (Bool-cases (text_eq e.plate q)) [
  | inl t ↦ absurd (omega (arith, rw t at h))
  | inr t ↦ rw t (select_nothing q es (rw t at h))
]

pub best_of_nothing : (q : Text) (es : List VotingEntry) → frequency_of q es ≡ 0 → best_of q es ≡ 0
best_of_nothing q es h = rw (select_nothing q es h)

abbrev pub top : List VotingEntry → ℕ
top es = highest (λ p. frequency_of p es) (plates es)

pub not_seen : (q : Text) → is_listed q [] ≡ true → ⊥
not_seen q h = cc

pub top_above : (q : Text) (es : List VotingEntry) → frequency_of q es ≤ top es
top_above q es = elim (dec_le 1 (frequency_of q es)) [
  | yes h ↦ elim (keys_listed q es [] h) [
    | inl k ↦ highest_above (λ p. frequency_of p es) q (plates es) k
    | inr k ↦ absurd (not_seen q k)
  ]
  | no h ↦ omega (arith, h)
]

nonempty :
    (q : Text) (ps : List Text)
    → is_listed q ps ≡ true
    → (p : Text) × (rest : List Text) × (ps ≡ p ∷ rest)
nonempty q [] h = cc
nonempty q (p ∷ ps) h = (p, ps, refl)

-- The plates of a window that has entries are those of its first and of the others.
pub candidates_some :
    (e : VotingEntry) (es : List VotingEntry)
    → (p : Text) × (ps : List Text) × (candidates (e ∷ es) ≡ p ∷ ps)
candidates_some e es =
    let (q, listed, reached) =
      highest_reached (λ p. frequency_of p (e ∷ es)) e.plate (keys es (e.plate ∷ [])) in
    let chosen : is_listed q (candidates (e ∷ es)) ≡ true =
      listed-select (λ p. frequency_of p (e ∷ es) == top (e ∷ es)) q (plates (e ∷ es))
        (ground (arith, reached)) listed in
    nonempty q (candidates (e ∷ es)) chosen
