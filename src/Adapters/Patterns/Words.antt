-- ===== src/Adapters/Patterns/Words.antt =====
-- What the pattern for an absent item finds in a text, by the codes of its characters.
use quittance.Prelude.{
  ℕ, ◌+◌, ◌≤◌, ◌≡◌, ◌⊎◌, refl, sym, ap, ◌∙◌, arith, String, code, true, some, List, [], ◌∷◌, ◌++◌,
  inl, inr, Bool-cases, Option-cases, append_assoc, ◌||◌, eqb,
}
use quittance.Js.Text.{codes, is_space}
use quittance.Adapters.Patterns.{
  strip_prefix, same_letter, starts, found_next, not_found_here, looks_not_found,
}

-- A text reads as a word up to the case of its letters.
pub data Reads : List ℕ → List ℕ → Type 0 where
  nothing : Reads [] []
  letter :
      {p c : ℕ} {ps cs : List ℕ}
      → (c ≡ p) ⊎ ((97 ≤ p) × (p ≤ 122) × (c + 32 ≡ p))
      → Reads ps cs
      → Reads (p ∷ ps) (c ∷ cs)

-- Between "not" and "found": nothing, a white space, an underscore or a hyphen.
abbrev pub IsSeparator : List ℕ → Type 0
IsSeparator sep =
    (sep ≡ []) ⊎ ((c : ℕ) × (sep ≡ c ∷ []) × ((is_space c ≡ true) ⊎ ((c ≡ 95) ⊎ (c ≡ 45))))

pub data SaysNotFound (m : List ℕ) : Type 0 where
  not_found :
      (a sep b : List ℕ)
      → m ≡ a ++ (sep ++ b)
      → Reads (codes "not") a
      → IsSeparator sep
      → Reads (codes "found") b
      → SaysNotFound m
  does_not_exist : Reads (codes "does not exist") m → SaysNotFound m
  dictionary_item : Reads (codes "dictionary item") m → SaysNotFound m
  value_not_found : Reads (codes "valuenotfound") m → SaysNotFound m

-- Somewhere in the text.
abbrev pub Mentions : List ℕ → Type 0
Mentions cs = (pre m post : List ℕ) × (cs ≡ pre ++ (m ++ post)) × SaysNotFound m

same_letter-reads :
    (p c : ℕ) → same_letter p c ≡ true → (c ≡ p) ⊎ ((97 ≤ p) × (p ≤ 122) × (c + 32 ≡ p))
same_letter-reads p c h = elim (Bool-cases (eqb p c)) [
  | inl same ↦ inl (ground arith)
  | inr other ↦ inr (ground arith, ground arith, ground arith)
]

strip_prefix-Reads :
    (p s rest : String)
    → strip_prefix same_letter p s ≡ some rest
    → (m : List ℕ) × (codes s ≡ m ++ codes rest) × Reads (codes p) m
unfolding strip_prefix
strip_prefix-Reads String.[] s rest h = ([], ground arith, nothing)
strip_prefix-Reads (String.◌∷◌ c p) String.[] rest h = cc
strip_prefix-Reads (String.◌∷◌ c p) (String.◌∷◌ d s) rest h =
    elim (Bool-cases (same_letter (code c) (code d))) [
      | inl same ↦
          let (m, e, r) = strip_prefix-Reads p s rest (ground arith) in
          (
            code d ∷ m,
            ap (λ cs. code d ∷ cs) e,
            letter (same_letter-reads (code c) (code d) same) r,
          )
      | inr other ↦ ground arith
    ]

-- A text starts with a word.
abbrev Begins : String → String → Type 0
Begins p s = (m post : List ℕ) × (codes s ≡ m ++ post) × Reads (codes p) m

starts-Begins : (p s : String) → starts p s ≡ true → Begins p s
starts-Begins p s h = elim (Option-cases (strip_prefix same_letter p s)) [
  | inl e ↦ ground arith
  | inr (rest, e) ↦ let (m, same, r) = strip_prefix-Reads p s rest e in (m, codes rest, same, r)
]

found_next-Begins :
    (s : String)
    → found_next s ≡ true
    → (sep b post : List ℕ) × (codes s ≡ sep ++ (b ++ post))
      × IsSeparator sep
      × Reads (codes "found") b
found_next-Begins String.[] h = cc
found_next-Begins (String.◌∷◌ c s) h = elim (Bool-cases (starts "found" (String.◌∷◌ c s))) [
  | inl here ↦
      let (b, post, e, r) = starts-Begins "found" (String.◌∷◌ c s) here in
      ([], b, post, e, inl refl, r)
  | inr later ↦
      let (b, post, e, r) = starts-Begins "found" s (ground arith) in
      (code c ∷ [], b, post, ap (λ cs. code c ∷ cs) e, inr (code c, refl, ground arith), r)
]

starts-Mentions :
    (p s : String)
    → ((m : List ℕ) → Reads (codes p) m → SaysNotFound m)
    → starts p s ≡ true
    → Mentions (codes s)
starts-Mentions p s says h = let (m, post, e, r) = starts-Begins p s h in ([], m, post, e, says m r)

not-Mentions :
    (s rest : String)
    → strip_prefix same_letter "not" s ≡ some rest
    → found_next rest ≡ true
    → Mentions (codes s)
not-Mentions s rest e h =
    let (a, same, r) = strip_prefix-Reads "not" s rest e in
    let (sep, b, post, found, separates, word) = found_next-Begins rest h in
    (
      [],
      a ++ (sep ++ b),
      post,
      same
          ∙ (ap (λ cs. a ++ cs) (found ∙ sym (append_assoc sep b post))
              ∙ sym (append_assoc a (sep ++ b) post)),
      not_found a sep b refl r separates word,
    )

other_words-Mentions :
    (s : String)
    → (starts "does not exist" s || (starts "dictionary item" s || starts "valuenotfound" s)) ≡ true
    → Mentions (codes s)
other_words-Mentions s h = elim (Bool-cases (starts "does not exist" s)) [
  | inl e ↦ starts-Mentions "does not exist" s (λ m r. does_not_exist r) e
  | inr f ↦ elim (Bool-cases (starts "dictionary item" s)) [
    | inl e ↦ starts-Mentions "dictionary item" s (λ m r. dictionary_item r) e
    | inr g ↦ starts-Mentions "valuenotfound" s (λ m r. value_not_found r) (ground arith)
  ]
]

not_found_here-Mentions : (s : String) → not_found_here s ≡ true → Mentions (codes s)
not_found_here-Mentions s h = elim (Option-cases (strip_prefix same_letter "not" s)) [
  | inl e ↦ other_words-Mentions s (ground arith)
  | inr (rest, e) ↦ elim (Bool-cases (found_next rest)) [
    | inl found ↦ not-Mentions s rest e found
    | inr other ↦ other_words-Mentions s (ground arith)
  ]
]

pub looks_not_found-Mentions : (s : String) → looks_not_found s ≡ true → Mentions (codes s)
unfolding looks_not_found
looks_not_found-Mentions String.[] h = cc
looks_not_found-Mentions (String.◌∷◌ c s) h = elim (Bool-cases (not_found_here (String.◌∷◌ c s))) [
  | inl here ↦ not_found_here-Mentions (String.◌∷◌ c s) here
  | inr later ↦
      let (pre, m, post, e, w) = looks_not_found-Mentions s (ground arith) in
      (code c ∷ pre, m, post, ap (λ cs. code c ∷ cs) e, w)
]
