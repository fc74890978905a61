-- ===== src/Gateway/Quiet.antt =====
-- Changes to the world that leave the registry and who the sessions are as they were.
use gateway_realtime.Common.{
  nat_beq, Bool-cases, map_update, get-update, nat_eq, string_eq, ℕ, ◌≤◌, ◌≡◌, refl, sym, ap, ◌∙◌,
  subst, inl, inr, Option, none, some, arith,
}
use gateway_realtime.Lifecycle.Outputs.{OnlyOutputs, OnlyDeliveries}
use gateway_realtime.Registry.Unregister.{SameSessions}
use gateway_realtime.Session.{Session, Sessions}
use gateway_realtime.World.{World, update_session, clear_timer}

pub record Quiet (w w' : World) : Type 0 where
  pub same : SameSessions w.sessions w'.sessions
  pub registry : w'.registry ≡ w.registry
  pub next : w.next ≤ w'.next

SameSessions-refl : (sessions : Sessions) → SameSessions sessions sessions
SameSessions-refl sessions = record {
  same = λ ref found h. (found, h, refl, refl, refl);
  gone = λ ref h. h;
}

pub Quiet-refl : (w : World) → Quiet w w
Quiet-refl w = record { same = SameSessions-refl w.sessions; registry = refl; next = omega arith }

pub Quiet-trans : (w w₁ w₂ : World) → Quiet w w₁ → Quiet w₁ w₂ → Quiet w w₂
Quiet-trans w w₁ w₂ q r = record {
  same = record {
    same = λ ref found h.
        let (s, at, id, type, principal) = q.same.same ref found h in
        let (s', at', id', type', principal') = r.same.same ref s at in
        (s', at', id' ∙ id, type' ∙ type, principal' ∙ principal);
    gone = λ ref h. r.same.gone ref (q.same.gone ref h);
  };
  registry = r.registry ∙ q.registry;
  next = omega (arith, q.next, r.next);
}

-- A change of other fields only.
pub Quiet-of :
    (w w' : World)
    → w'.sessions ≡ w.sessions
    → w'.registry ≡ w.registry
    → w.next ≤ w'.next
    → Quiet w w'
Quiet-of w w' e f h = record {
  same = subst (SameSessions w.sessions) (sym e) (SameSessions-refl w.sessions);
  registry = f;
  next = h;
}

pub OnlyOutputs-Quiet : (w w' : World) → OnlyOutputs w w' → Quiet w w'
OnlyOutputs-Quiet w w' h =
    let next : w'.next ≡ w.next = ap (λ v. v.next) h in
    Quiet-of w w' (ap (λ v. v.sessions) h) (ap (λ v. v.registry) h) (omega (arith, next))

pub OnlyDeliveries-Quiet : (w w' : World) → OnlyDeliveries w w' → Quiet w w'
OnlyDeliveries-Quiet w w' h =
    let next : w'.next ≡ w.next = ap (λ v. v.next) h in
    Quiet-of w w' (ap (λ v. v.sessions) h) (ap (λ v. v.registry) h) (omega (arith, next))

-- A change of a session that leaves who it is.
abbrev pub KeepsIdentity : (Session → Session) → Type 0
KeepsIdentity f =
    (s : Session)
    → ((f s).session_id ≡ s.session_id) × ((f s).type ≡ s.type) × ((f s).principal ≡ s.principal)

pub SameSessions-update :
    (ref : ℕ) (f : Session → Session) (sessions : Sessions)
    → KeepsIdentity f
    → SameSessions sessions (map_update ref f sessions)
SameSessions-update ref f sessions keeps = record {
  same = λ other found h. elim (Bool-cases (nat_beq ref other)) [
    | inl e ↦ (
      f found,
      get-update other ref f sessions ∙ rw (e, h) refl,
      (keeps found).0,
      (keeps found).1,
      (keeps found).2,
    )
    | inr e ↦ (found, get-update other ref f sessions ∙ rw (e, h) refl, refl, refl, refl)
  ];
  gone = λ other h. get-update other ref f sessions ∙ ground (arith, h);
}

pub update_session-Quiet :
    (ref : ℕ) (f : Session → Session) (w : World)
    → KeepsIdentity f
    → Quiet w (update_session ref f w)
update_session-Quiet ref f w keeps = record {
  same = SameSessions-update ref f w.sessions keeps;
  registry = refl;
  next = omega arith;
}

pub clear_timer-Quiet : (timer : Option ℕ) (w : World) → Quiet w (clear_timer timer w)
clear_timer-Quiet none w = Quiet-refl w
clear_timer-Quiet (some timer) w = Quiet-of w _ refl refl (omega arith)
