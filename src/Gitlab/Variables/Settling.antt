-- ===== src/Gitlab/Variables/Settling.antt =====
-- What `varNeedsUpdate` says of a variable after it was updated.
use lieutenant_operator.Prelude.{
  ◌≡◌, refl, Bool, false, ◌||◌, Option, none, some, deref, arith, eq_refl,
}
use lieutenant_operator.Gitlab.{ProjectVariable, VariableOptions}
use lieutenant_operator.Gitlab.Variables.{Variable, differs, text_differs, var_needs_update, sent}

-- The variable on the server with the options of a call: an option that is not given stays as it was.
abbrev pub applied : VariableOptions → ProjectVariable → ProjectVariable
applied o r = record r {
  value = o.value;
  description = deref o.description r.description;
  protected = deref o.protected r.protected;
  masked = deref o.masked r.masked;
  raw = deref o.raw r.raw;
}

differs-deref : (o : Option Bool) (b : Bool) → differs o (deref o b) ≡ false
differs-deref none b = refl
differs-deref (some a) b = ground (arith)

or_false : (b : Bool) → (b || false || false || false) ≡ b
or_false b = ground (arith)

-- An update settles everything about a variable but its description: a variable whose description
-- differs is found to need another update, however often it was updated.
pub var_needs_update-applied :
    (r : ProjectVariable) (v : Variable)
    → var_needs_update (applied (sent v) r) v
      ≡ text_differs v.gitlab_options.description r.description
unfolding var_needs_update sent
var_needs_update-applied r v =
    rw
      (
        eq_refl v.value,
        differs-deref v.gitlab_options.protected r.protected,
        differs-deref v.gitlab_options.masked r.masked,
        differs-deref v.gitlab_options.raw r.raw,
      )
      (or_false (text_differs v.gitlab_options.description r.description))
