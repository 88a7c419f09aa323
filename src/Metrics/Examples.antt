-- ===== src/Metrics/Examples.antt =====
-- The theorems on metrics at concrete facts.
use lieutenant_operator.Prelude.{
  String, ◌≡◌, refl, true, [], ◌∷◌, Dict, All, sort_by, lookup, insert, format_int, contains,
}
use lieutenant_operator.Metrics.{pairs, fact_labels}
use lieutenant_operator.Metrics.Labels.{
  normalize_label_key, number_labels, replace_invalid, replace_inner, is_start, is_inner,
  has_underscore, is_accepted, reserved,
}
use lieutenant_operator.Metrics.Valid.{
  IsFactLabel, normalize_label_key-IsFactLabel, fact_labels-valid,
}

-- The number of the second key makes the third.
abbrev facts : Dict String
facts = ("a.b", "1") ∷ ("a_b_1", "2") ∷ ("a-b", "3") ∷ []

labels_collide : fact_labels facts ≡ "a_b" ∷ "a_b_1" ∷ "a_b_1" ∷ []
unfolding fact_labels pairs sort_by normalize_label_key number_labels replace_invalid replace_inner
    is_start is_inner has_underscore lookup insert format_int contains
labels_collide = refl

fact_labels-valid_example : All (λ k. is_accepted k ≡ true) (fact_labels facts)
fact_labels-valid_example = fact_labels-valid facts

keys : normalize_label_key "tenant" reserved "fact_" ≡ "orig_tenant"
unfolding normalize_label_key replace_invalid replace_inner is_start is_inner has_underscore
    contains
keys = refl

normalize_label_key-IsFactLabel_example :
    IsFactLabel (normalize_label_key "9-lives" reserved "fact_")
normalize_label_key-IsFactLabel_example = normalize_label_key-IsFactLabel "9-lives" refl
