-- ===== src/Registry/Unregister.antt =====
-- What `unregister` does to the map and the indexes of the registry, and what a change to the
-- session objects does.
use gateway_realtime.Common.{
  if◌then◌else◌, Option-cases, Map, map_get, map_delete, get-delete, set_contains, ◌==◌, nat_eq,
  string_eq, ℕ, String, ◌≡◌, refl, sym, ap, ◌∙◌, ◌≢◌, inl, inr, Bool, false, Option, none, some,
  List, arith, eq_iff,
}
use gateway_realtime.Principal.{EnduserType, client_id_of}
use gateway_realtime.Registry.{
  Registry, set_of, drop_from, unregister_session, unregister_found, unregister,
}
use gateway_realtime.Registry.Indexes.{counts, IsRegistry, contains-drop_if}
use gateway_realtime.Session.{Session, Sessions, is_device, is_browser}

counts-delete :
    (kind : EnduserType → Bool) (tenant : String) (found id ref : ℕ) (registered : Map ℕ ℕ)
    (t : Session)
    → map_get id registered ≡ some ref
    → (ref ≡ found → t.session_id ≡ id)
    → counts kind tenant found (map_delete id registered) (some t)
      ≡ (if ref == found then false else counts kind tenant found registered (some t))
counts-delete kind tenant found id ref registered t e h =
    let moved : id ≡ t.session_id → map_get id registered ≡ map_get t.session_id registered =
      ap (λ i. map_get i registered) in
    rw (get-delete t.session_id id registered) (ground (arith, moved, e, h))

-- One index before and after.
index-unregister :
    (kind : EnduserType → Bool) (ref id : ℕ) (s : Session) (registered : Map ℕ ℕ)
    (index : Map String (List ℕ)) (tenant : String) (found : ℕ) (o : Option Session)
    → map_get id registered ≡ some ref
    → s.session_id ≡ id
    → (ref ≡ found → o ≡ some s)
    → set_contains found (set_of tenant index) ≡ counts kind tenant found registered o
    → set_contains found (
        set_of tenant
          (if kind s.type then drop_from (client_id_of s.principal) ref index else index))
      ≡ counts kind tenant found (map_delete id registered) o
index-unregister kind ref id s registered index tenant found none e same at h =
    let d : ref ≢ found = λ q. absurd (ground (arith, at q)) in
    rw (contains-drop_if (kind s.type) (client_id_of s.principal) tenant ref found index)
      (ground (arith, h, d))
index-unregister kind ref id s registered index tenant found (some t) e same at h =
    let t_is : ref ≡ found → t ≡ s = λ q. cc (at q) in
    let kinds : ref ≡ found → kind t.type ≡ kind s.type = λ q. ap (λ x. kind x.type) (t_is q) in
    let tenants : ref ≡ found → client_id_of t.principal ≡ client_id_of s.principal =
      λ q. ap (λ x. client_id_of x.principal) (t_is q) in
    rw
      (
        contains-drop_if (kind s.type) (client_id_of s.principal) tenant ref found index,
        counts-delete kind tenant found id ref registered t e
            (λ q. ap (λ x. x.session_id) (t_is q) ∙ same),
        h,
      )
      (ground (
        arith,
        kinds,
        tenants,
        eq_iff (client_id_of s.principal) tenant,
        eq_iff (client_id_of t.principal) tenant,
      ))

unregistered :
    (session_id ref : ℕ) (sessions : Sessions) (reg : Registry) (s : Session)
    → IsRegistry sessions reg
    → map_get session_id reg.sessions ≡ some ref
    → map_get ref sessions ≡ some s
    → s.session_id ≡ session_id
    → IsRegistry sessions (unregister_session session_id ref (some s) reg)
unfolding unregister_session
unregistered session_id ref sessions reg s v e at same =
    let at_found : (found : ℕ) → ref ≡ found → map_get found sessions ≡ some s =
      λ found q. ap (λ r. map_get r sessions) (sym q) ∙ at in
    record {
      named = λ id found h.
          v.named id found (ground (arith, sym (get-delete id session_id reg.sessions) ∙ h));
      devices = λ tenant found.
          index-unregister is_device ref session_id s reg.sessions reg.tenant_devices tenant found
            (map_get found sessions) e same (at_found found) (v.devices tenant found);
      browsers = λ tenant found.
          index-unregister is_browser ref session_id s reg.sessions reg.tenant_browsers tenant found
            (map_get found sessions) e same (at_found found) (v.browsers tenant found);
    }

pub unregister-IsRegistry :
    (session_id : ℕ) (sessions : Sessions) (reg : Registry)
    → IsRegistry sessions reg
    → IsRegistry sessions (unregister session_id sessions reg)
unfolding unregister unregister_found
unregister-IsRegistry session_id sessions reg v =
    elim (Option-cases (map_get session_id reg.sessions)) [
      | inl e ↦ rw e v
      | inr (ref, e) ↦
          let (s, at, same) = v.named session_id ref e in
          rw (e, at) (unregistered session_id ref sessions reg s v e at same)
    ]

-- A change to the session objects that leaves who they are.
pub record SameSessions (before after : Sessions) : Type 0 where
  pub same :
      (ref : ℕ)
      → (found : Session) (h : map_get ref before ≡ some found)
      → (s : Session) × (map_get ref after ≡ some s)
        × (s.session_id ≡ found.session_id)
        × (s.type ≡ found.type)
        × (s.principal ≡ found.principal)
  pub gone : (ref : ℕ) → map_get ref before ≡ none → map_get ref after ≡ none

counts-same :
    (kind : EnduserType → Bool) (tenant : String) (ref : ℕ) (registered : Map ℕ ℕ)
    (before after : Sessions)
    → SameSessions before after
    → counts kind tenant ref registered (map_get ref before)
      ≡ counts kind tenant ref registered (map_get ref after)
counts-same kind tenant ref registered before after v = elim (Option-cases (map_get ref before)) [
  | inl e ↦ rw (e, v.gone ref e) refl
  | inr (t, e) ↦
      let (s, at, id, type, principal) = v.same ref t e in rw (e, at, id, type, principal) refl
]

pub IsRegistry-same :
    (before after : Sessions) (reg : Registry)
    → SameSessions before after
    → IsRegistry before reg
    → IsRegistry after reg
IsRegistry-same before after reg c v = record {
  named = λ id ref h.
      let (t, at, same) = v.named id ref h in
      let (s, at', id', type, principal) = c.same ref t at in (s, at', id' ∙ same);
  devices = λ tenant ref.
      v.devices tenant ref ∙ counts-same is_device tenant ref reg.sessions before after c;
  browsers = λ tenant ref.
      v.browsers tenant ref ∙ counts-same is_browser tenant ref reg.sessions before after c;
}
