-- ===== src/Alerts/Syncing.antt =====
-- What `sync_snmp_config` of delfin/alert_manager/trap_receiver.py does to the communities of the SNMP
-- engine.
use delfin.Prelude.{
  ℕ, zero, suc, ◌≡◌, refl, ap, fun_ext, ◌∙◌, Bool, true, false, ◌&&◌, Option, none, some, ◌==◌,
  ==→eq, if◌then◌else◌, arith, Bool-cases, inl, inr,
}
use delfin.Errors.{Result, ok, err, ◌>>=◌}
use delfin.Alerts.Source.{
  Version, snmpv1, snmpv2c, snmpv3, unknown_version, community_string, username, auth_key,
  auth_protocol, privacy_protocol, privacy_key, engine_id, AlertSource,
}
use delfin.Alerts.Config.{Brief, is_known_version, is_configured, readable}
use delfin.Alerts.Receiver.{
  SnmpEngine, Site, User, add_snmp_config, delete_snmp_config, octets, decoded, decoded_if_given,
  usm_protocol, auth_protocols, privacy_protocols, add_user, add_community, add_version,
  delete_version, delete_user, kept_on_error,
}
use delfin.Alerts.Service.{delete_old}
use delfin.Alerts.Hex.{is_octets}
use delfin.Alerts.Every.{configured}
use delfin.Alerts.Communities.{Communities, has_community, text_of, without_old, with_new}

-- The documented behaviour of the calls on the communities: they are found under their index from
-- when they are added until they are deleted, and users are kept apart from them.
pub record IsSnmpEngine {E : Type 0} (snmp : SnmpEngine E) : Type 0 where
  pub community-add :
      (i c j : ℕ) (e : E)
      → snmp.community (snmp.add_v1_system i c e) j
        ≡ (if i == j then some c else snmp.community e j)
  pub community-del :
      (i c : ℕ) (e : E)
      → snmp.community e i ≡ some c
      → (e' : E) × (snmp.del_v1_system i e ≡ ok e')
        × ((j : ℕ) → snmp.community e' j ≡ (if i == j then none else snmp.community e j))
  pub community-add_user :
      (u : User) (j : ℕ) (e e' : E)
      → snmp.add_v3_user u e ≡ ok e'
      → snmp.community e' j ≡ snmp.community e j
  pub community-del_user :
      (name id : Option ℕ) (j : ℕ) (e e' : E)
      → snmp.del_v3_user name id e ≡ ok e'
      → snmp.community e' j ≡ snmp.community e j

abbrev pub communities : {E : Type 0} → SnmpEngine E → Site → E → Communities
communities snmp site e s = snmp.community e (site.without_dashes s)

-- A configuration to delete that the engine has.
abbrev pub GoodBrief : (ℕ → Bool) → Option Brief → Communities → Type 0
GoodBrief is_hex none t = Unit
GoodBrief is_hex (some b) t =
    (is_known_version b.version ≡ true)
    × (has_community b.version ≡ true → (c : ℕ) × (t b.storage_id ≡ some c))
    × (is_octets is_hex b.engine_id ≡ true)

octets-ok : (is_hex : ℕ → Bool) (e : Option ℕ) → is_octets is_hex e ≡ true → octets is_hex e ≡ ok e
octets-ok is_hex none h = refl
octets-ok is_hex (some zero) h = refl
octets-ok is_hex (some (suc n)) h = rw h refl

-- The engine after a call that may raise.
abbrev pub engine_after : {E : Type 0} → E → Result E → E
engine_after e (ok e') = e'
engine_after e (err x) = e

pub >>=-ok :
    {A B : Type 0} (m : Result A) (f : A → Result B) (b : B)
    → (m >>= f) ≡ ok b
    → (a : A) × (f a ≡ ok b)
>>=-ok (ok a) f b h = (a, h)
>>=-ok (err e) f b h = ground arith

module _ {E : Type 0} (snmp : SnmpEngine E) (laws : IsSnmpEngine snmp) (site : Site)
    (apart : (s t : ℕ) → site.without_dashes s ≡ site.without_dashes t → s ≡ t) where
  same_index : (s t : ℕ) → (site.without_dashes s == site.without_dashes t) ≡ (s == t)
  same_index s t = elim (Bool-cases (s == t)) [
    | inl y ↦
        let e : site.without_dashes s ≡ site.without_dashes t =
          ap site.without_dashes (==→eq s t y) in
        ground arith
    | inr n ↦ elim (Bool-cases (site.without_dashes s == site.without_dashes t)) [
      | inl y ↦
          let e = apart s t (==→eq (site.without_dashes s) (site.without_dashes t) y) in
          ground arith
      | inr m ↦ ground arith
    ]
  ]

  -- The engine after a deletion that succeeds.
  abbrev Deleted : Option Brief → E → Result E → Type 0
  Deleted b e r =
      (e' : E) × (r ≡ ok e') × (communities snmp site e' ≡ without_old b (communities snmp site e))

  delete_system :
      (s : ℕ) (e : E)
      → ((c : ℕ) × (communities snmp site e s ≡ some c))
      → (e' : E) × (snmp.del_v1_system (site.without_dashes s) e ≡ ok e')
        × (communities snmp site e' ≡ λ t. if s == t then none else communities snmp site e t)
  delete_system s e (c, here) =
      let (e', gone, rest) = laws.community-del (site.without_dashes s) c e here in
      (e', gone, fun_ext (λ t. rest (site.without_dashes t) ∙ rw (same_index s t) refl))

  kept_on_error-communities :
      (b : Brief) (e : E) (r : Result E)
      → snmp.del_v3_user b.username b.engine_id e ≡ r
      → (e' : E) × (kept_on_error snmp site e r ≡ ok e')
        × (communities snmp site e' ≡ communities snmp site e)
  kept_on_error-communities b e (ok e') is = (
    e',
    refl,
    fun_ext (λ s. laws.community-del_user b.username b.engine_id (site.without_dashes s) e e' is),
  )
  kept_on_error-communities b e (err x) is = (e, refl, refl)

  delete_user-communities :
      (b : Brief) (e : E)
      → is_octets site.is_hex b.engine_id ≡ true
      → (e' : E) × (delete_user snmp site b e ≡ ok e')
        × (communities snmp site e' ≡ communities snmp site e)
  delete_user-communities b e hex =
      let (e', gone, same) =
        kept_on_error-communities b e (snmp.del_v3_user b.username b.engine_id e) refl in
      (
        e',
        ap (λ r. r >>= λ engine. kept_on_error snmp site e (snmp.del_v3_user b.username engine e))
              (octets-ok site.is_hex b.engine_id hex)
            ∙ gone,
        same,
      )

  delete_version-Deleted :
      (b : Brief) (e : E) (v : Version)
      → is_known_version v ≡ true
      → (has_community v ≡ true → (c : ℕ) × (communities snmp site e b.storage_id ≡ some c))
      → is_octets site.is_hex b.engine_id ≡ true
      → (e' : E) × (delete_version snmp site b e v ≡ ok e')
        × (communities snmp site e' ≡ λ t.
            if has_community v && (b.storage_id == t) then none else communities snmp site e t)
  delete_version-Deleted b e snmpv1 known there hex = delete_system b.storage_id e (there refl)
  delete_version-Deleted b e snmpv2c known there hex = delete_system b.storage_id e (there refl)
  delete_version-Deleted b e snmpv3 known there hex = delete_user-communities b e hex
  delete_version-Deleted b e unknown_version known there hex = ground arith

  -- An old configuration that the engine has is deleted.
  pub delete_old-communities :
      (b : Option Brief) (e : E)
      → GoodBrief site.is_hex b (communities snmp site e)
      → (e' : E) × (delete_old snmp site b e ≡ ok e')
        × (communities snmp site e' ≡ without_old b (communities snmp site e))
  unfolding delete_snmp_config
  delete_old-communities none e good = (e, refl, refl)
  delete_old-communities (some b) e (known, there, hex) =
      delete_version-Deleted b e b.version known there hex

  decoded-ok :
      (v : Option ℕ) → readable site.crypt v ≡ true → (t : ℕ) × (decoded site.crypt v ≡ ok t)
  decoded-ok none h = ground arith
  decoded-ok (some c) h = at (site.crypt.decode c) refl h
    where
      at :
          (r : Result ℕ)
          → site.crypt.decode c ≡ r
          → elim r [ ok t ↦ true | err e ↦ false ] ≡ true
          → (t : ℕ) × (site.crypt.decode c ≡ ok t)
      at (ok t) e h = (t, e)
      at (err x) e h = ground arith

  add_community-communities :
      (config : AlertSource) (e : E)
      → readable site.crypt (config.value community_string) ≡ true
      → communities snmp site (engine_after e (add_community snmp site config e)) ≡ λ t.
          if config.storage_id == t
          then text_of (decoded site.crypt (config.value community_string))
          else communities snmp site e t
  add_community-communities config e h =
      let (text, is) = decoded-ok (config.value community_string) h in
      rw is (
        fun_ext (λ t.
          laws.community-add (site.without_dashes config.storage_id) text (site.without_dashes t) e
          ∙ rw (same_index config.storage_id t) refl))

  add_user-added :
      (config : AlertSource) (e e' : E)
      → add_user snmp site config e ≡ ok e'
      → (u : User) × (snmp.add_v3_user u e ≡ ok e')
  add_user-added config e e' is =
      let (engine, h) = >>=-ok (octets site.is_hex (config.value engine_id)) _ e' is in
      let (auth, h) = >>=-ok (decoded_if_given site.crypt (config.value auth_key)) _ e' h in
      let (priv, h) = >>=-ok (decoded_if_given site.crypt (config.value privacy_key)) _ e' h in
      let (auth_used, h) =
        >>=-ok (usm_protocol auth_protocols (config.value auth_protocol)) _ e' h in
      let (priv_used, h) =
        >>=-ok (usm_protocol privacy_protocols (config.value privacy_protocol)) _ e' h in
      (
        record {
          name = config.value username;
          auth = auth;
          privacy = priv;
          auth_protocol_used = auth_used;
          priv_protocol_used = priv_used;
          security_engine_id = engine;
        },
        h,
      )

  add_user-communities :
      (config : AlertSource) (e : E) (r : Result E)
      → add_user snmp site config e ≡ r
      → communities snmp site (engine_after e r) ≡ communities snmp site e
  add_user-communities config e (err x) is = refl
  add_user-communities config e (ok e') is =
      let (u, h) = add_user-added config e e' is in
      fun_ext (λ s. laws.community-add_user u (site.without_dashes s) e e' h)

  add_version-communities :
      (config : AlertSource) (e : E) (v : Version)
      → (has_community v ≡ true → readable site.crypt (config.value community_string) ≡ true)
      → communities snmp site (engine_after e (add_version snmp site config e v)) ≡ λ t.
          if has_community v && (config.storage_id == t)
          then (if has_community v
              then text_of (decoded site.crypt (config.value community_string))
              else none)
          else communities snmp site e t
  add_version-communities config e snmpv1 h = add_community-communities config e (h refl)
  add_version-communities config e snmpv2c h = add_community-communities config e (h refl)
  add_version-communities config e snmpv3 h =
      add_user-communities config e (add_user snmp site config e) refl
  add_version-communities config e unknown_version h = refl

  -- What adding a configuration does to the communities, with its own columns or those of a dict that
  -- agrees with it.
  pub add_snmp_config-communities :
      (config : AlertSource) (e : E)
      → configured site.crypt config ≡ true
      → communities snmp site (engine_after e (add_snmp_config snmp site config e))
        ≡ with_new site.crypt (some config) (communities snmp site e)
  unfolding add_snmp_config
  add_snmp_config-communities config e good =
      add_version-communities config e config.version (at config.version good)
    where
      at :
          (v : Version)
          → is_configured site.crypt v config.value ≡ true
          → has_community v ≡ true
          → readable site.crypt (config.value community_string) ≡ true
      at snmpv1 g h = ground arith
      at snmpv2c g h = ground arith
      at snmpv3 g h = ground arith
      at unknown_version g h = ground arith
