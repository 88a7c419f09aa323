-- ===== src/Clusters/Templates.antt =====
-- The template of a cluster: controllers/cluster/template.go and tenant.go. The libraries that parse,
-- walk and merge are the parameter `Templating`. A string that reads the template it stands in sees the
-- template as it was before any string of it was rendered.
use lieutenant_operator.Prelude.{String, ◌||◌, Option, none, some, ◌==◌, is_some, if◌then◌else◌}
use lieutenant_operator.Errors.{Error, Outcome, ok, err, msg, wrap, annotate}
use lieutenant_operator.Api.Cluster.{Cluster, ClusterSpec}
use lieutenant_operator.Api.Tenant.{Tenant}
use lieutenant_operator.Api.Object.{cluster}
use lieutenant_operator.Kube.{Client}
use lieutenant_operator.Pipeline.{Function, continue, fail}
use lieutenant_operator.Clusters.{tenant_key}

pub record Templating : Type 1 where
  -- text/template
  pub Template : Type 0
  pub parse : String → Outcome Template
  pub execute : Template → Cluster → Tenant → Outcome String
  -- `structparse.Strings`: every string of the spec through a function with a state.
  pub strings :
      (String → Option Error → String × Option Error)
      → ClusterSpec
      → Option Error
      → ClusterSpec × Option Error
  -- `mergo.Merge(dst, src)`, with the destination also where it fails.
  pub merge : ClusterSpec → ClusterSpec → Option Error × ClusterSpec

abbrev pub finished : Cluster → Option Error × ClusterSpec → Option Error × Cluster
finished c (none, spec) = (none, record c { spec = spec })
finished c (some e, spec) =
    (some (wrap "an error occured during cluster template merging" e), record c { spec = spec })

module _ (lib : Templating) where
  unfoldable pub render_template : String → Cluster → Tenant → Outcome String
  render_template tmpl c t = elim (lib.parse tmpl) [
    | err e ↦ err (wrap "could not parse template" e)
    | ok p ↦ annotate "could not render template" (lib.execute p c t)
  ]

  -- The first error stays, and nothing is rendered after it.
  unfoldable pub parse_string : Cluster → Tenant → String → Option Error → String × Option Error
  unfolding render_template
  parse_string c t s old =
      if is_some old || s == ""
      then (s, old)
      else (elim (render_template s c t) [ ok r ↦ (r, old) | err e ↦ (s, some e) ])

  unfoldable pub apply_cluster_template : Cluster → Tenant → Option Error × Cluster
  unfolding parse_string
  apply_cluster_template c t = elim t.spec.cluster_template [
    | none ↦ (none, c)
    | some spec ↦
        let (rendered, e) = lib.strings (parse_string c t) spec none in
        elim e [
          | some x ↦ (some (wrap "An error occured during template manifestation" x), c)
          | none ↦ finished c (lib.merge c.spec rendered)
        ]
  ]

  module _ {W : Type 0} (cli : Client W) where
    unfoldable pub apply_cluster_template_from_tenant : Function W
    unfolding apply_cluster_template
    apply_cluster_template_from_tenant s = elim (cli.get_tenant (tenant_key s.obj) s.world) [
      | err e ↦ (fail (wrap "couldn't find tenant" e), s)
      | ok t ↦ elim s.obj [
        | cluster c ↦
            let (e, c') = apply_cluster_template c t in
            (
              elim e [ none ↦ continue | some x ↦ fail (wrap "apply cluster template" x) ],
              record s { obj = cluster c' },
            )
        | _ ↦ (fail (msg "object is not a cluster"), s)
      ]
    ]
