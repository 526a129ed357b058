-- ===== src/Manifest/Rereading.antt =====
-- manifest.py, `digest` and `from_dict`: the value that the digest is computed from is a manifest, and
-- the same one.
use plug_and_play_local_rag.Base.{
  ◌≡◌, refl, sym, ap, ◌∙◌, subst, ◌⊎◌, inl, inr, String, [], ◌∷◌, ◌++◌, map, false, not, str_eq_iff,
  ok, >>=-eq-ok, raise_if-passes, >>-eq-ok, ok-injective, Dict, get,
}
use plug_and_play_local_rag.Manifest.{
  Builtins, DeploymentManifest, is_deployment_id, manifest_error,
}
use plug_and_play_local_rag.Manifest.Contents.{
  allowed_keys, from_dict, parse_backup, parse_caddy, parse_policy, parse_readiness, parse_root,
  parse_services, profile_value,
}
use plug_and_play_local_rag.Manifest.Reading.{HexLaws, required_string_reread}
use plug_and_play_local_rag.Json.{Json, array, elements_of, equals_number, equals_text, text}
use plug_and_play_local_rag.Manifest.Fields.{
  item, one_of, require_exact_keys, required_string, state_config,
}
use plug_and_play_local_rag.Manifest.Rendering.{
  digest_value, policy_json, profile_entry, sections, service_json,
}
use plug_and_play_local_rag.Manifest.Parts.{from_dict-Parts}
use plug_and_play_local_rag.Manifest.Deployable.{one_of_cases}
use plug_and_play_local_rag.Manifest.PolicyReading.{parse_services_reread, parse_policy_reread}
use plug_and_play_local_rag.Manifest.SectionReading.{
  state_json, parse_backup_reread, updates_reread, caddy_json, parse_caddy_reread, deployment_json,
  parse_readiness_reread,
}

-- The profile is one of the two, and the identifier is read again.
parse_root_parts :
    (py : Builtins) (value : Dict Json) (r : String × String)
    → parse_root py value ≡ ok r
    → ((r.0 ≡ "team_lan") ⊎ (r.0 ≡ "team_lan_preview_unsigned"))
      × (required_string py (text r.1) ≡ ok r.1)
      × (not (is_deployment_id r.1) ≡ false)
unfolding parse_root
parse_root_parts py value r h =
    let given = get value "product_profile" in
    let (keys, h1) = >>-eq-ok (require_exact_keys value (allowed_keys given)) _ h in
    let (profile, e2, h2) =
      >>=-eq-ok (one_of ("team_lan" ∷ "team_lan_preview_unsigned" ∷ []) (profile_value given)) _
        h1 in
    let (v3, e3, h3) = >>=-eq-ok (item value "schema_version") _ h2 in
    let (e4, h4) = raise_if-passes (not (equals_number v3 2)) manifest_error _ h3 in
    let (v5, e5, h5) = >>=-eq-ok (item value "canonical_host") _ h4 in
    let (e6, h6) = raise_if-passes (not (equals_text v5 "rag.home.arpa")) manifest_error _ h5 in
    let (v7, e7, h7) = >>=-eq-ok (item value "firewall_profile") _ h6 in
    let (e8, h8) = raise_if-passes (not (equals_text v7 "Private")) manifest_error _ h7 in
    let (v9, e9, h9) = >>=-eq-ok (item value "deployment_id") _ h8 in
    let (id, e10, h10) = >>=-eq-ok (required_string py v9) _ h9 in
    let (e11, h11) = raise_if-passes (not (is_deployment_id id)) manifest_error _ h10 in
    let made : (profile, id) ≡ r = ok-injective h11 in
    (
      subst (λ x. (x.0 ≡ "team_lan") ⊎ (x.0 ≡ "team_lan_preview_unsigned")) made
          (elim (one_of_cases "team_lan" "team_lan_preview_unsigned" (profile_value given) e2) [
            | inl e ↦ inl ((str_eq_iff profile "team_lan").0 e)
            | inr e ↦ inr ((str_eq_iff profile "team_lan_preview_unsigned").0 e)
          ]),
      required_string_reread py v9 r.1 (e10 ∙ ap (λ x. ok x.1) made),
      subst (λ x. not (is_deployment_id x.1) ≡ false) made e11,
    )

parse_root-sections :
    (py : Builtins) (m : DeploymentManifest) (profile : String)
    → (profile ≡ "team_lan") ⊎ (profile ≡ "team_lan_preview_unsigned")
    → m.schema_version ≡ 2
    → m.canonical_host ≡ "rag.home.arpa"
    → m.firewall_profile ≡ "Private"
    → required_string py (text m.deployment_id) ≡ ok m.deployment_id
    → not (is_deployment_id m.deployment_id) ≡ false
    → parse_root py (sections m ++ profile_entry profile) ≡ ok (profile, m.deployment_id)
unfolding parse_root require_exact_keys one_of get
parse_root-sections py m profile (inl lan) e1 e2 e3 e4 e5 =
    subst (λ x. parse_root py (sections m ++ profile_entry x) ≡ ok (x, m.deployment_id)) (sym lan)
      (rw (e1, e2, e3, e4, e5) refl)
parse_root-sections py m profile (inr preview) e1 e2 e3 e4 e5 =
    subst (λ x. parse_root py (sections m ++ profile_entry x) ≡ ok (x, m.deployment_id))
      (sym preview) (rw (e1, e2, e3, e4, e5) refl)

from_dict-sections :
    (py : Builtins) (m : DeploymentManifest)
    → parse_root py (digest_value m) ≡ ok (m.product_profile, m.deployment_id)
    → parse_services py m.product_profile (array (elements_of (map service_json m.services)))
      ≡ ok m.services
    → parse_policy (policy_json m.restart_policy) ≡ ok m.restart_policy
    → parse_backup py (state_json "destination" (m.backup_state, m.backup_destination))
      ≡ ok (m.backup_state, m.backup_destination)
    → state_config py "public_key_sha256"
        (state_json "public_key_sha256" (m.update_state, m.update_public_key_sha256))
      ≡ ok (m.update_state, m.update_public_key_sha256)
    → parse_caddy py (caddy_json (m.caddy_version, m.caddy_archive_sha512, m.caddy_sha256))
      ≡ ok (m.caddy_version, m.caddy_archive_sha512, m.caddy_sha256)
    → parse_readiness m.product_profile
        (deployment_json (m.deployment_state, m.deployment_blockers, m.prerequisite_checks))
      ≡ ok (m.deployment_state, m.deployment_blockers, m.prerequisite_checks)
    → from_dict py (digest_value m)
      ≡ ok (record m {
        schema_version = 2;
        canonical_host = "rag.home.arpa";
        firewall_profile = "Private";
      })
unfolding from_dict digest_value get
from_dict-sections py m e1 e2 e3 e4 e5 e6 e7 = rw (e1, e2, e3, e4, e5, e6, e7) refl

-- A manifest that is read, written as the value its digest is computed from, is read as the same
-- manifest: of a manifest nothing is left out of its digest. (Of `str.lower` and `str.strip` it is
-- assumed what they do with hexadecimal digits.)
pub from_dict-digest_value :
    (py : Builtins) (laws : HexLaws py) (value : Dict Json) (m : DeploymentManifest)
    → from_dict py value ≡ ok m
    → from_dict py (digest_value m) ≡ ok m
unfolding digest_value
from_dict-digest_value py laws value m h =
    let p = from_dict-Parts py value h in
    let (profile_is, id_ok, id_valid) =
      parse_root_parts py p.value (m.product_profile, m.deployment_id) p.root_ok in
    from_dict-sections py m
      (parse_root-sections py m m.product_profile profile_is p.schema_is p.host_is p.firewall_is
        id_ok id_valid)
      (parse_services_reread py m.product_profile p.services_value m.services p.services_ok)
      (parse_policy_reread p.policy_value m.restart_policy p.policy_ok)
      (parse_backup_reread py p.backup_value (m.backup_state, m.backup_destination) p.backup_ok)
      (updates_reread py laws p.updates_value (m.update_state, m.update_public_key_sha256)
        p.updates_ok)
      (parse_caddy_reread py laws p.caddy_value
        (m.caddy_version, m.caddy_archive_sha512, m.caddy_sha256) p.caddy_ok)
      (parse_readiness_reread m.product_profile p.readiness_value
        (m.deployment_state, m.deployment_blockers, m.prerequisite_checks) p.readiness_ok)
    ∙ ap
        (λ n. ok (record m {
          schema_version = n;
          canonical_host = "rag.home.arpa";
          firewall_profile = "Private";
        }))
        (sym p.schema_is)
    ∙ ap (λ t. ok (record m { canonical_host = t; firewall_profile = "Private" })) (sym p.host_is)
    ∙ ap (λ t. ok (record m { firewall_profile = t })) (sym p.firewall_is)
