-- ===== src/Conversion/Rendered.antt =====
-- internal/conversion and internal/frr: what was converted can be rendered.
use pierre.Base.{ℕ, ◌≡◌, refl, ap, List, [], ◌∷◌, ◌++◌, Text, codes, Result, ok, err, All₂, ◌>>=◌}
use pierre.Net.{Net}
use pierre.Api.{Underlay, Vni}
use pierre.Frr.Config.{VniConfig, Config}
use pierre.Frr.Template.{
  vni_section, vni_sections, global_section, template_config, session_with_host,
}
use pierre.Frr.Apply.{apply_config, generate_and_reload_config_file}
use pierre.HostNetwork.Params.{VniParams}
use pierre.Conversion.Frr.{api_to_frr, local_neighbor}
use pierre.Conversion.Agreement.{SameVni, api_to_host_config_agrees}

sections_lem :
    (net : Net) (vtep : Text) (vs : List VniConfig) (ps : List VniParams)
    → All₂ (SameVni net vtep) vs ps
    → (t : Text) × (vni_sections vs ≡ ok t)
unfolding vni_sections vni_section
sections_lem net vtep [] [] h = ([], refl)
sections_lem net vtep [] (p ∷ ps) h = elim h [ ]
sections_lem net vtep (v ∷ vs) [] h = elim h [ ]
sections_lem net vtep (v ∷ vs) (p ∷ ps) (h, hs) =
    let (t, e) = sections_lem net vtep vs ps hs in
    (session_with_host v (local_neighbor (net.ip_string h.side.ip) h.asn) ++ t, rw (h.peer, e) refl)

template_lem :
    (c : Config) (t : Text)
    → vni_sections c.vnis ≡ ok t
    → template_config c ≡ ok (global_section c ++ t ++ codes "\n")
unfolding template_config
template_lem c t e =
    ap (λ (r : Result Text). r >>= λ vnis. ok (global_section c ++ vnis ++ codes "\n")) e

updated :
    {S : Type 0} (updater : Text → S → Result (Unit {0}) × S) (c : Config) (s : S) (t : Text)
    → template_config c ≡ ok t
    → generate_and_reload_config_file updater c s ≡ updater t s
unfolding generate_and_reload_config_file
updated {S} updater c s t e =
    ap
      (λ (r : Result Text). elim r as (λ _. Result (Unit {0}) × S) [
        | err x ↦ (err x, s)
        | ok text ↦ updater text s
      ])
      e

-- Whatever APItoFRR returns is rendered, with any host name, and the updater is called with the
-- text: from then on the application of the configuration does what the updater does.
pub apply_config_converted :
    {S : Type 0} (net : Net) (node_index : ℕ) (underlays : List Underlay) (vnis : List Vni)
    (log_level : Text) (c : Config) (hostname : Text) (updater : Text → S → Result (Unit {0}) × S)
    (s : S)
    → api_to_frr net node_index underlays vnis log_level ≡ ok c
    → (t : Text) × (template_config (record c { hostname = hostname }) ≡ ok t)
      × (apply_config updater (ok hostname) c s ≡ updater t s)
unfolding apply_config
apply_config_converted net node_index underlays vnis log_level c hostname updater s h =
    let (_, ps, _, _, _, agree) =
      api_to_host_config_agrees net node_index [] underlays vnis log_level c h in
    let (t, e) = sections_lem net c.underlay.vtep c.vnis ps agree in
    let named = record c { hostname = hostname } in
    let rendered = template_lem named t e in
    (global_section named ++ t ++ codes "\n", rendered, updated updater named s _ rendered)
