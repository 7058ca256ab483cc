-- ===== src/Api/Query/Words.antt =====
-- The query words of api/content_query.go: what each selects, and which spellings are accepted.
use mathlib.Core.List.{reverse, reverse-append, reverse-reverse, reverse-cons}
use dp_topic_api.Prelude.{
  ℕ, ◌+◌, ◌<◌, String, ◌≡◌, ◌≢◌, ◌↔◌, refl, sym, ap, ◌∙◌, true, false, ◌&&◌, none, List, [], ◌∷◌,
  ◌++◌, map, map-append, leb, All, All-append, Bool-cases, arith, inl, inr, if◌then◌else◌,
}
use dp_topic_api.Api.Query.{
  selects, query_sets, runes, runes_eq, is_space, trim_left, trim_space, flags_of, flags_for,
}
use dp_topic_api.Api.Query.Kinds.{
  Kind, only, spotlight, articles, bulletins, methodologies, methodology_articles, static_datasets,
  timeseries, Word, publications, datasets, flag, spelling, Asks, word_flags, flags_of-spelling,
  selects-Asks, Asks-selects,
}

-- What is used of `unicode.ToLower`: it maps A-Z to a-z, and no other ASCII character and no space
-- is changed.
abbrev pub ascii_lower : ℕ → ℕ
ascii_lower c = if leb b'A' c && leb c b'Z' then c + 32 else c

pub record IsToLower (lower : ℕ → ℕ) : Type 0 where
  pub ascii : (c : ℕ) → c < 128 → lower c ≡ ascii_lower c
  pub space : (c : ℕ) → is_space c ≡ true → lower c ≡ c

abbrev pub IsBlank : List ℕ → Type 0
IsBlank = All (λ c. is_space c ≡ true)

trim_left-blank : (blank s : List ℕ) → IsBlank blank → trim_left (blank ++ s) ≡ trim_left s
unfolding trim_left
trim_left-blank [] s h = refl
trim_left-blank (c ∷ blank) s (p, h) = rw p (trim_left-blank blank s h)

map_lower-blank : (lower : ℕ → ℕ) → IsToLower lower → (s : List ℕ) → IsBlank s → map lower s ≡ s
map_lower-blank lower l [] h = refl
map_lower-blank lower l (c ∷ s) (p, h) = cc (l.space c p, map_lower-blank lower l s h)

IsBlank-reverse : (s : List ℕ) → IsBlank s → IsBlank (reverse s)
IsBlank-reverse [] h = tt
IsBlank-reverse (c ∷ s) (p, h) =
    rw reverse-cons
      (All-append (λ d. is_space d ≡ true) (reverse s) (c ∷ []) (IsBlank-reverse s h) (p, tt))

-- `s` begins and ends with a character that is no space.
abbrev IsTrimmed : List ℕ → Type 0
IsTrimmed s =
    ((rest : List ℕ) → trim_left (s ++ rest) ≡ s ++ rest) × (trim_left (reverse s) ≡ reverse s)

spelling-IsTrimmed : (w : Word) → IsTrimmed (runes (spelling w))
unfolding trim_left is_space
spelling-IsTrimmed (only spotlight) = ((λ rest. refl), refl)
spelling-IsTrimmed (only articles) = ((λ rest. refl), refl)
spelling-IsTrimmed (only bulletins) = ((λ rest. refl), refl)
spelling-IsTrimmed (only methodologies) = ((λ rest. refl), refl)
spelling-IsTrimmed (only methodology_articles) = ((λ rest. refl), refl)
spelling-IsTrimmed (only static_datasets) = ((λ rest. refl), refl)
spelling-IsTrimmed (only timeseries) = ((λ rest. refl), refl)
spelling-IsTrimmed publications = ((λ rest. refl), refl)
spelling-IsTrimmed datasets = ((λ rest. refl), refl)

trim_space-padded :
    (before s after : List ℕ)
    → IsBlank before
    → IsTrimmed s
    → IsBlank after
    → trim_space (before ++ (s ++ after)) ≡ s
unfolding trim_space
trim_space-padded before s after hb (left, right) ha =
    ap (λ t. reverse (trim_left (reverse t))) (trim_left-blank before (s ++ after) hb ∙ left after)
    ∙ ap (λ t. reverse (trim_left t)) (reverse-append s after)
    ∙ ap reverse (trim_left-blank (reverse after) (reverse s) (IsBlank-reverse after ha) ∙ right)
    ∙ reverse-reverse s

pub runes_eq_iff : (s t : List ℕ) → (runes_eq s t ≡ true) ↔ (s ≡ t)
runes_eq_iff [] [] = ((λ h. refl), (λ h. refl))
runes_eq_iff [] (b ∷ t) = ((λ h. cc), (λ h. cc))
runes_eq_iff (a ∷ s) [] = ((λ h. cc), (λ h. cc))
runes_eq_iff (a ∷ s) (b ∷ t) = ground (arith, runes_eq_iff s t)

lower-ascii :
    (lower : ℕ → ℕ)
    → IsToLower lower
    → (body s : List ℕ) → All (λ c. c < 128) s
    → map ascii_lower body ≡ s
    → map lower body ≡ s
lower-ascii lower l [] s h e = e
lower-ascii lower l (c ∷ body) [] h e = cc
lower-ascii lower l (c ∷ body) (d ∷ s) (p, h) e =
    let small : c < 128 = ground arith in
    let rest : map ascii_lower body ≡ s = ground arith in
    let head : ascii_lower c ≡ d = ground arith in
    cc (l.ascii c small, lower-ascii lower l body s h rest)

spelling-ascii : (w : Word) → All (λ c. c < 128) (runes (spelling w))
spelling-ascii (only spotlight) = omega arith
spelling-ascii (only articles) = omega arith
spelling-ascii (only bulletins) = omega arith
spelling-ascii (only methodologies) = omega arith
spelling-ascii (only methodology_articles) = omega arith
spelling-ascii (only static_datasets) = omega arith
spelling-ascii (only timeseries) = omega arith
spelling-ascii publications = omega arith
spelling-ascii datasets = omega arith

module _ (lower : ℕ → ℕ) (is_lower : IsToLower lower) where
  flags_for-word :
      (before body after : List ℕ) (value : String) (w : Word)
      → runes value ≡ before ++ (body ++ after)
      → IsBlank before
      → IsBlank after
      → map ascii_lower body ≡ runes (spelling w)
      → flags_for lower value ≡ word_flags w
  unfolding flags_for
  flags_for-word before body after value w e hb ha hw =
      let lowered : map lower (runes value) ≡ before ++ (runes (spelling w) ++ after) =
        ap (map lower) e
        ∙ simp map-append (
            cc (
              map_lower-blank lower is_lower before hb,
              map_lower-blank lower is_lower after ha,
              lower-ascii lower is_lower body (runes (spelling w)) (spelling-ascii w) hw,
            )) in
      rw (
        lowered,
        trim_space-padded before (runes (spelling w)) after hb (spelling-IsTrimmed w) ha,
        flags_of-spelling w,
      )

  -- A value that spells a query word, in any case of its letters and between any spaces, selects
  -- exactly the kinds of content that the word asks for.
  pub flags_for-Asks :
      (before body after : List ℕ) (value : String) (w : Word) (k : Kind)
      → runes value ≡ before ++ (body ++ after)
      → IsBlank before
      → IsBlank after
      → map ascii_lower body ≡ runes (spelling w)
      → (selects (flags_for lower value) (flag k) ≡ true) ↔ Asks w k
  flags_for-Asks before body after value w k e hb ha hw =
      rw (flags_for-word before body after value w e hb ha hw) (selects-Asks w k, Asks-selects)

runes_eq-false : (s t : List ℕ) → t ≢ s → runes_eq s t ≡ false
runes_eq-false s t h = elim (Bool-cases (runes_eq s t)) [
  | inl e ↦ absurd (h (sym ((runes_eq_iff s t).0 e)))
  | inr e ↦ e
]

flags_of-none :
    (sets : List (String × ℕ)) (s : List ℕ)
    → All (λ set. s ≢ runes set.0) sets
    → flags_of sets s ≡ none
unfolding flags_of
flags_of-none [] s h = refl
flags_of-none ((name, flags) ∷ sets) s (p, h) =
    rw (runes_eq-false (runes name) s p) (flags_of-none sets s h)

word_flags-ne : (w : Word) → word_flags w ≢ 0
word_flags-ne (only spotlight) = omega arith
word_flags-ne (only articles) = omega arith
word_flags-ne (only bulletins) = omega arith
word_flags-ne (only methodologies) = omega arith
word_flags-ne (only methodology_articles) = omega arith
word_flags-ne (only static_datasets) = omega arith
word_flags-ne (only timeseries) = omega arith
word_flags-ne publications = omega arith
word_flags-ne datasets = omega arith

-- A value is refused, with no flags, exactly when it spells no query word once it is lowered and
-- trimmed.
pub flags_for-unrecognised :
    (lower : ℕ → ℕ) (value : String)
    → (flags_for lower value ≡ 0)
      ↔ ((w : Word) → trim_space (map lower (runes value)) ≢ runes (spelling w))
unfolding flags_for
flags_for-unrecognised lower value = (to, from)
  where
    found :
        (w : Word)
        → trim_space (map lower (runes value)) ≡ runes (spelling w)
        → flags_for lower value ≡ word_flags w
    found w e = rw (e, flags_of-spelling w)

    to :
        flags_for lower value ≡ 0
        → (w : Word) → trim_space (map lower (runes value)) ≢ runes (spelling w)
    to h w e = word_flags-ne w (sym (found w e) ∙ h)

    from :
        ((w : Word) → trim_space (map lower (runes value)) ≢ runes (spelling w))
        → flags_for lower value ≡ 0
    from h = rw (
        flags_of-none query_sets (trim_space (map lower (runes value))) (
          h (only spotlight),
          (
            h (only articles),
            (
              h (only bulletins),
              (
                h (only methodologies),
                (
                  h (only methodology_articles),
                  (
                    h (only static_datasets),
                    (h (only timeseries), (h publications, (h datasets, tt))),
                  ),
                ),
              ),
            ),
          ),
        ))
