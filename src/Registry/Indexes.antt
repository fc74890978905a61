-- ===== src/Registry/Indexes.antt =====
-- The two indexes of the registry hold exactly the sessions that the map registers.
use gateway_realtime.Common.{
  nat_beq, if◌then◌else◌, nat_beq_iff, Bool-cases, Map, map_get, map_set, get-set, get-delete,
  set_contains, set_add, set_delete, contains-add, contains-delete, filter, ◌==◌, nat_eq, string_eq,
  ℕ, String, ◌≡◌, refl, sym, ap, ◌∙◌, ◌≢◌, inl, inr, Bool, true, false, ◌&&◌, Option, none, some,
  List, [], ◌∷◌, arith, eq_iff,
}
use gateway_realtime.Principal.{EnduserType, client_id_of}
use gateway_realtime.Registry.{
  Registry, set_of, add_to, put_set, drop_from_found, drop_from, register, same_ref,
}
use gateway_realtime.Session.{Session, Sessions, is_device, is_browser}

pub contains-filter :
    (k : ℕ) (p : ℕ → Bool) (xs : List ℕ) → set_contains k (filter p xs) ≡ (p k && set_contains k xs)
unfolding set_contains
contains-filter k p [] = ground arith
contains-filter k p (x ∷ xs) = ground (arith, nat_beq_iff x k, contains-filter k p xs)

contains-add_to :
    (tenant other : String) (ref k : ℕ) (index : Map String (List ℕ))
    → set_contains k (set_of other (add_to tenant ref index))
      ≡ (if (tenant == other) && (ref == k) then true else set_contains k (set_of other index))
contains-add_to tenant other ref k index =
    rw (get-set other tenant (set_add ref (set_of tenant index)) index)
      (ground (arith, eq_iff tenant other, contains-add k ref (set_of tenant index)))

contains-put_set :
    (tenant other : String) (refs : List ℕ) (k : ℕ) (index : Map String (List ℕ))
    → set_contains k (set_of other (put_set tenant refs index))
      ≡ (if tenant == other then set_contains k refs else set_contains k (set_of other index))
unfolding set_contains
contains-put_set tenant other [] k index = rw (get-delete other tenant index) (ground arith)
contains-put_set tenant other (x ∷ xs) k index =
    rw (get-set other tenant (x ∷ xs) index) (ground arith)

contains-drop_found :
    (tenant other : String) (ref k : ℕ) (index : Map String (List ℕ)) (found : Option (List ℕ))
    → map_get tenant index ≡ found
    → set_contains k (set_of other (drop_from_found tenant ref found index))
      ≡ (if (tenant == other) && (ref == k) then false else set_contains k (set_of other index))
unfolding set_contains
contains-drop_found tenant other ref k index none e =
    let moved : tenant ≡ other → map_get tenant index ≡ map_get other index =
      ap (λ t. map_get t index) in
    ground (arith, eq_iff tenant other, e, moved)
contains-drop_found tenant other ref k index (some refs) e =
    let moved : tenant ≡ other → map_get tenant index ≡ map_get other index =
      ap (λ t. map_get t index) in
    rw (contains-put_set tenant other (set_delete ref refs) k index)
      (ground (arith, eq_iff tenant other, contains-delete k ref refs, e, moved))

contains-drop_from :
    (tenant other : String) (ref k : ℕ) (index : Map String (List ℕ))
    → set_contains k (set_of other (drop_from tenant ref index))
      ≡ (if (tenant == other) && (ref == k) then false else set_contains k (set_of other index))
contains-drop_from tenant other ref k index =
    contains-drop_found tenant other ref k index (map_get tenant index) refl

-- Whether a session object counts for an index of a tenant, as the map and the objects have it.
abbrev pub counts : (EnduserType → Bool) → String → ℕ → Map ℕ ℕ → Option Session → Bool
counts kind tenant ref registered none = false
counts kind tenant ref registered (some s) =
    kind s.type
    && ((client_id_of s.principal == tenant) && same_ref (map_get s.session_id registered) ref)

pub record IsRegistry (sessions : Sessions) (reg : Registry) : Type 0 where
  pub named :
      (id ref : ℕ)
      → map_get id reg.sessions ≡ some ref
      → (s : Session) × (map_get ref sessions ≡ some s) × (s.session_id ≡ id)
  pub devices :
      (tenant : String) (ref : ℕ)
      → set_contains ref (set_of tenant reg.tenant_devices)
        ≡ counts is_device tenant ref reg.sessions (map_get ref sessions)
  pub browsers :
      (tenant : String) (ref : ℕ)
      → set_contains ref (set_of tenant reg.tenant_browsers)
        ≡ counts is_browser tenant ref reg.sessions (map_get ref sessions)

counts-set :
    (kind : EnduserType → Bool) (tenant : String) (found id ref : ℕ) (registered : Map ℕ ℕ)
    (o : Option Session)
    → map_get id registered ≡ none
    → ref ≢ found
    → counts kind tenant found (map_set id ref registered) o ≡ counts kind tenant found registered o
counts-set kind tenant found id ref registered none e h = refl
counts-set kind tenant found id ref registered (some t) e h =
    let moved : id ≡ t.session_id → map_get id registered ≡ map_get t.session_id registered =
      ap (λ i. map_get i registered) in
    rw (get-set t.session_id id ref registered) (ground (arith, moved, e, h))

contains-add_if :
    (b : Bool) (tenant other : String) (ref k : ℕ) (index : Map String (List ℕ))
    → set_contains k (set_of other (if b then add_to tenant ref index else index)) ≡ (
        if b && ((tenant == other) && (ref == k))
        then true
        else set_contains k (set_of other index))
contains-add_if true tenant other ref k index = contains-add_to tenant other ref k index
contains-add_if false tenant other ref k index = refl

pub contains-drop_if :
    (b : Bool) (tenant other : String) (ref k : ℕ) (index : Map String (List ℕ))
    → set_contains k (set_of other (if b then drop_from tenant ref index else index)) ≡ (
        if b && ((tenant == other) && (ref == k))
        then false
        else set_contains k (set_of other index))
contains-drop_if true tenant other ref k index = contains-drop_from tenant other ref k index
contains-drop_if false tenant other ref k index = refl

-- One index before and after a registration.
index-register :
    (kind : EnduserType → Bool) (ref : ℕ) (s : Session) (sessions : Sessions) (registered : Map ℕ ℕ)
    (index : Map String (List ℕ)) (tenant : String) (found : ℕ)
    → map_get ref sessions ≡ none
    → map_get s.session_id registered ≡ none
    → set_contains found (set_of tenant index)
      ≡ counts kind tenant found registered (map_get found sessions)
    → set_contains found
        (set_of tenant (if kind s.type then add_to (client_id_of s.principal) ref index else index))
      ≡ counts kind tenant found
          (map_set s.session_id ref registered)
          (map_get found (map_set ref s sessions))
index-register kind ref s sessions registered index tenant found fresh unused h =
    elim (Bool-cases (nat_beq ref found)) [
      | inl e ↦
          let q : ref ≡ found = ground (arith, e) in
          let out : set_contains found (set_of tenant index) ≡ false =
            h
            ∙ ap (counts kind tenant found registered)
                (ap (λ r. map_get r sessions) (sym q) ∙ fresh) in
          rw
            (
              contains-add_if (kind s.type) (client_id_of s.principal) tenant ref found index,
              get-set found ref s sessions,
              out,
              e,
              get-set s.session_id s.session_id ref registered,
            )
            (ground (arith, e, nat_beq_iff s.session_id s.session_id))
      | inr e ↦
          let d : ref ≢ found = ground (arith, e) in
          rw
            (
              contains-add_if (kind s.type) (client_id_of s.principal) tenant ref found index,
              get-set found ref s sessions,
              e,
              counts-set kind tenant found s.session_id ref registered (map_get found sessions)
                  unused d,
            )
            (ground (arith, h))
    ]

named-register :
    (ref : ℕ) (s : Session) (sessions : Sessions) (registered : Map ℕ ℕ)
    → ((id ref : ℕ)
        → map_get id registered ≡ some ref
        → (s : Session) × (map_get ref sessions ≡ some s) × (s.session_id ≡ id))
    → map_get ref sessions ≡ none
    → (id found : ℕ) → (if s.session_id == id then some ref else map_get id registered) ≡ some found
    → (t : Session) × (map_get found (map_set ref s sessions) ≡ some t) × (t.session_id ≡ id)
named-register ref s sessions registered v fresh id found h =
    elim (Bool-cases (nat_beq s.session_id id)) [
      | inl e ↦ (
        s,
        get-set found ref s sessions ∙ ground (arith, h, e, nat_beq_iff ref found),
        ground (arith, e),
      )
      | inr e ↦
          let (t, at, same) = v id found (ground (arith, h, e)) in
          (
            t,
            get-set found ref s sessions ∙ ground (arith, at, fresh, ap (λ r. map_get r sessions)),
            same,
          )
    ]

pub register-IsRegistry :
    (ref : ℕ) (s : Session) (sessions : Sessions) (reg : Registry)
    → IsRegistry sessions reg
    → map_get ref sessions ≡ none
    → map_get s.session_id reg.sessions ≡ none
    → IsRegistry (map_set ref s sessions) (register ref s reg)
unfolding register
register-IsRegistry ref s sessions reg v fresh unused = record {
  named = λ id found h.
      named-register ref s sessions reg.sessions v.named fresh id found
        (sym (get-set id s.session_id ref reg.sessions) ∙ h);
  devices = λ tenant found.
      index-register is_device ref s sessions reg.sessions reg.tenant_devices tenant found fresh
        unused (v.devices tenant found);
  browsers = λ tenant found.
      index-register is_browser ref s sessions reg.sessions reg.tenant_browsers tenant found fresh
        unused (v.browsers tenant found);
}
