-- ===== src/Manifest/Parts.antt =====
-- manifest.py, `from_dict`: what each section of a manifest that is returned was read from.
use plug_and_play_local_rag.Base.{◌≡◌, refl, subst, ok, >>=-eq-ok, ok-injective, Dict}
use plug_and_play_local_rag.Manifest.{Builtins, DeploymentManifest}
use plug_and_play_local_rag.Json.{Json}
use plug_and_play_local_rag.Manifest.Contents.{
  from_dict, parse_backup, parse_caddy, parse_policy, parse_readiness, parse_root, parse_services,
}
use plug_and_play_local_rag.Manifest.Fields.{item, state_config}

pub record Parts (py : Builtins) (m : DeploymentManifest) : Type 0 where
  pub value : Dict Json
  pub root_ok : parse_root py value ≡ ok (m.product_profile, m.deployment_id)
  pub services_value : Json
  pub services_ok : parse_services py m.product_profile services_value ≡ ok m.services
  pub policy_value : Json
  pub policy_ok : parse_policy policy_value ≡ ok m.restart_policy
  pub backup_value : Json
  pub backup_ok : parse_backup py backup_value ≡ ok (m.backup_state, m.backup_destination)
  pub updates_value : Json
  pub updates_ok :
      state_config py "public_key_sha256" updates_value
      ≡ ok (m.update_state, m.update_public_key_sha256)
  pub caddy_value : Json
  pub caddy_ok :
      parse_caddy py caddy_value ≡ ok (m.caddy_version, m.caddy_archive_sha512, m.caddy_sha256)
  pub readiness_value : Json
  pub readiness_ok :
      parse_readiness m.product_profile readiness_value
      ≡ ok (m.deployment_state, m.deployment_blockers, m.prerequisite_checks)
  pub schema_is : m.schema_version ≡ 2
  pub host_is : m.canonical_host ≡ "rag.home.arpa"
  pub firewall_is : m.firewall_profile ≡ "Private"

pub from_dict-Parts :
    (py : Builtins) (value : Dict Json) {m : DeploymentManifest}
    → from_dict py value ≡ ok m
    → Parts py m
unfolding from_dict
from_dict-Parts py value {m} h =
    let (root, root_ok, h1) = >>=-eq-ok (parse_root py value) _ h in
    let (services_value, e2, h2) = >>=-eq-ok (item value "services") _ h1 in
    let (services, services_ok, h3) = >>=-eq-ok (parse_services py root.0 services_value) _ h2 in
    let (policy_value, e4, h4) = >>=-eq-ok (item value "restart_policy") _ h3 in
    let (policy, policy_ok, h5) = >>=-eq-ok (parse_policy policy_value) _ h4 in
    let (backup_value, e6, h6) = >>=-eq-ok (item value "backup") _ h5 in
    let (backup, backup_ok, h7) = >>=-eq-ok (parse_backup py backup_value) _ h6 in
    let (updates_value, e8, h8) = >>=-eq-ok (item value "updates") _ h7 in
    let (updates, updates_ok, h9) =
      >>=-eq-ok (state_config py "public_key_sha256" updates_value) _ h8 in
    let (caddy_value, e10, h10) = >>=-eq-ok (item value "caddy") _ h9 in
    let (caddy, caddy_ok, h11) = >>=-eq-ok (parse_caddy py caddy_value) _ h10 in
    let (readiness_value, e12, h12) = >>=-eq-ok (item value "deployment_readiness") _ h11 in
    let (readiness, readiness_ok, h13) = >>=-eq-ok (parse_readiness root.0 readiness_value) _ h12 in
    subst (Parts py) (ok-injective h13) (record {
      value = value;
      root_ok = root_ok;
      services_value = services_value;
      services_ok = services_ok;
      policy_value = policy_value;
      policy_ok = policy_ok;
      backup_value = backup_value;
      backup_ok = backup_ok;
      updates_value = updates_value;
      updates_ok = updates_ok;
      caddy_value = caddy_value;
      caddy_ok = caddy_ok;
      readiness_value = readiness_value;
      readiness_ok = readiness_ok;
      schema_is = refl;
      host_is = refl;
      firewall_is = refl;
    })
