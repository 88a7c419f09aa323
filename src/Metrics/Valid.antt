-- ===== src/Metrics/Valid.antt =====
-- The labels that `normalizeLabelKey` gives for facts.
use Prim.Native.String.append
use lieutenant_operator.Prelude.{
  ℕ, zero, suc, ◌+◌, String, ◌≡◌, Option-cases, List, Dict, All, lookup, insert, map, digit,
  format_int, format_int_keeps, refl, ap, ◌∙◌, subst, true, false, [], ◌∷◌, ◌==◌, ◌<>◌, contains,
  Bool-cases, ◌⊎◌, inl, inr, arith, eq_iff,
}
use lieutenant_operator.Metrics.Labels.{
  is_start, is_inner, replace_inner, replace_invalid, has_underscore, unprotected,
  normalize_label_key, reserved, all_inner, is_label, is_internal, is_accepted, number_labels,
}
use lieutenant_operator.Metrics.{pairs, fact_labels}

replaced_inner : (s : String) → all_inner (replace_inner s) ≡ true
unfolding all_inner replace_inner is_inner is_start
replaced_inner String.[] = refl
replaced_inner (String.◌∷◌ c s) = elim (Bool-cases (is_inner c)) [
  | inl y ↦ rw (y, y) (replaced_inner s)
  | inr n ↦ rw n (replaced_inner s)
]

replaced : (s : String) → (s == "") ≡ false → is_label (replace_invalid s) ≡ true
unfolding is_label replace_invalid is_start
replaced String.[] h = cc
replaced (String.◌∷◌ c s) h = elim (Bool-cases (is_start c)) [
  | inl y ↦ rw (y, y) (replaced_inner s)
  | inr n ↦ rw n (replaced_inner s)
]

label_inner : (s : String) → is_label s ≡ true → all_inner s ≡ true
unfolding is_label all_inner is_inner
label_inner String.[] h = refl
label_inner (String.◌∷◌ c s) h = ground (arith)

all_inner-append :
    (p s : String) → all_inner p ≡ true → all_inner s ≡ true → all_inner (p <> s) ≡ true
unfolding all_inner
all_inner-append String.[] s h k = rw (append.nil s) k
all_inner-append (String.◌∷◌ c p) s h k =
    rw (append.cons c p s) (ground (arith, all_inner-append p s))

is_label-append : (p s : String) → is_label p ≡ true → is_label s ≡ true → is_label (p <> s) ≡ true
unfolding is_label
is_label-append String.[] s h k = cc
is_label-append (String.◌∷◌ c p) s h k =
    rw (append.cons c p s) (ground (arith, all_inner-append p s, label_inner s))

starts_with_f : (s : String) → has_underscore ("fact_" <> s) ≡ false
unfolding has_underscore
starts_with_f s = ap has_underscore (append.cons "f" "act_" s)

-- A label of the data model, that is not of the metric itself, and begins with no underscore.
abbrev pub IsFactLabel : String → Type 0
IsFactLabel k = (is_label k ≡ true) × (contains k reserved ≡ false) × (has_underscore k ≡ false)

unprotected-IsFactLabel :
    (k : String)
    → is_label k ≡ true
    → has_underscore k ≡ false
    → IsFactLabel (unprotected reserved k)
unfolding contains is_label all_inner is_inner is_start has_underscore
unprotected-IsFactLabel k l u = elim (Bool-cases ("cluster" == k)) [
  | inl y ↦
      subst (λ x. IsFactLabel (unprotected reserved x)) ((eq_iff "cluster" k).0 y)
        (refl, refl, refl)
  | inr n ↦ elim (Bool-cases ("tenant" == k)) [
    | inl y ↦
        subst (λ x. IsFactLabel (unprotected reserved x)) ((eq_iff "tenant" k).0 y)
          (refl, refl, refl)
    | inr m ↦ rw (n, m) (l, rw (n, m) refl, u)
  ]
]

-- A key of a fact that is not empty becomes a label that Prometheus takes, that is neither `cluster` nor
-- `tenant`, the labels of the metric itself, and that does not begin with an underscore, as the labels
-- that Prometheus keeps for itself do.
pub normalize_label_key-IsFactLabel :
    (key : String) → (key == "") ≡ false → IsFactLabel (normalize_label_key key reserved "fact_")
unfolding normalize_label_key is_label
normalize_label_key-IsFactLabel key h =
    let k = replace_invalid key in
    let l = replaced key h in
    elim (Bool-cases (has_underscore k)) [
      | inl y ↦
          rw (normalize_label_key, h, y)
            (unprotected-IsFactLabel ("fact_" <> k) (is_label-append "fact_" k refl l)
              (starts_with_f k))
      | inr n ↦ rw (normalize_label_key, h, n) (unprotected-IsFactLabel k l n)
    ]

digit_inner : (d : ℕ) (s : String) → all_inner s ≡ true → all_inner (String.◌∷◌ (digit d) s) ≡ true
unfolding all_inner is_inner is_start digit
digit_inner zero s h = h
digit_inner (suc zero) s h = h
digit_inner (suc (suc zero)) s h = h
digit_inner (suc (suc (suc zero))) s h = h
digit_inner (suc (suc (suc (suc zero)))) s h = h
digit_inner (suc (suc (suc (suc (suc zero))))) s h = h
digit_inner (suc (suc (suc (suc (suc (suc zero)))))) s h = h
digit_inner (suc (suc (suc (suc (suc (suc (suc zero))))))) s h = h
digit_inner (suc (suc (suc (suc (suc (suc (suc (suc zero)))))))) s h = h
digit_inner (suc (suc (suc (suc (suc (suc (suc (suc (suc d))))))))) s h = h

number_inner : (n : ℕ) → all_inner (format_int n) ≡ true
unfolding all_inner
number_inner = format_int_keeps (λ s. all_inner s ≡ true) digit_inner refl

inner_label : (p s : String) → is_label p ≡ true → all_inner s ≡ true → is_label (p <> s) ≡ true
unfolding is_label
inner_label String.[] s h k = cc
inner_label (String.◌∷◌ c p) s h k = rw (append.cons c p s) (ground (arith, all_inner-append p s))

-- A label as it is before it may get a number: one of no fact's own key, or without an underscore in
-- front, so that a number makes no second one there.
abbrev IsNormal : String → Type 0
IsNormal k = (is_label k ≡ true) × ((k ≡ "_empty") ⊎ (has_underscore k ≡ false))

not_internal :
    (k s : String) → is_label k ≡ true → has_underscore k ≡ false → is_internal (k <> s) ≡ false
unfolding is_internal has_underscore is_label
not_internal String.[] s l h = cc
not_internal (String.◌∷◌ c k) s l h = rw (append.cons c k s) (rw h refl)

empty_not_internal : (s : String) → is_internal ("_empty" <> s) ≡ false
unfolding is_internal has_underscore
empty_not_internal s =
    ap is_internal
      (append.cons "_" "empty" s ∙ ap (λ (t : String). String.◌∷◌ "_" t) (append.cons "e" "mpty" s))

internal-append : (k s : String) → IsNormal k → is_internal (k <> s) ≡ false
internal-append k s (l, inl e) = rw e (empty_not_internal s)
internal-append k s (l, inr h) = not_internal k s l h

not_internal_alone : (k : String) → IsNormal k → is_internal k ≡ false
unfolding is_internal has_underscore is_label
not_internal_alone k (l, inl e) = rw e refl
not_internal_alone String.[] (l, inr h) = refl
not_internal_alone (String.◌∷◌ c k) (l, inr h) = rw h refl

accepted : (s : String) → is_label s ≡ true → is_internal s ≡ false → is_accepted s ≡ true
accepted s l n = rw (l, n) refl

abbrev AreAccepted : List String → Type 0
AreAccepted ks = All (λ k. is_accepted k ≡ true) ks

numbered :
    (seen : Dict ℕ) (ks : List String) → All IsNormal ks → AreAccepted (number_labels seen ks)
unfolding number_labels all_inner is_inner is_start
numbered seen [] a = tt
numbered seen (k ∷ ks) a = elim (Option-cases (lookup k seen)) [
  | inl n ↦
      rw (number_labels, n)
        (accepted k a.0.0 (not_internal_alone k a.0), numbered (insert k 1 seen) ks a.1)
  | inr (n, e) ↦
      let s = "_" <> format_int n in
      let inner = all_inner-append "_" (format_int n) refl (number_inner n) in
      rw (number_labels, e)
        (
          accepted (k <> s) (inner_label k s a.0.0 inner) (internal-append k s a.0),
          numbered (insert k (n + 1) seen) ks a.1,
        )
]

normalized_key : (k : String) → IsNormal (normalize_label_key k reserved "fact_")
unfolding normalize_label_key is_label all_inner is_inner is_start
normalized_key k = elim (Bool-cases (k == "")) [
  | inl y ↦ rw (normalize_label_key, y) (refl, inl refl)
  | inr n ↦ let f = normalize_label_key-IsFactLabel k n in (f.0, inr f.2)
]

normalized :
    (ks : List String) → All IsNormal (map (λ k. normalize_label_key k reserved "fact_") ks)
normalized [] = tt
normalized (k ∷ ks) = (normalized_key k, normalized ks)

-- Whatever the keys of the facts of a cluster are, every label that is made of them, with the number that
-- it may get, is one of Prometheus' data model and does not begin with two underscores, as the labels do
-- that the library refuses.
pub fact_labels-valid : (facts : Dict String) → All (λ k. is_accepted k ≡ true) (fact_labels facts)
unfolding fact_labels
fact_labels-valid facts =
    numbered [] (map (λ k. normalize_label_key k reserved "fact_") (pairs facts).0)
      (normalized (pairs facts).0)
