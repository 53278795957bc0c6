-- ===== src/Infprocessor/Send/Broadcast.antt =====
-- What a round of heartbeats does to the engines.
use inference_manager.Base.{
  ==_iff, Bool-cases, List, Option, Option-cases, String, [], ap, inl, inr, insert, lookup,
  lookup-insert, nat_eq, none, or_else, refl, some, string_eq, subst, sym, true, ℕ, ◌==◌, ◌∙◌, ◌∷◌,
  ◌≡◌, ◌⊎◌,
}
use inference_manager.Infprocessor.State.{Engine, Processor, tenant_engines}
use inference_manager.Infprocessor.Engines.{beat, update_heartbeat, update_last_engine_heartbeat}
use inference_manager.Infprocessor.Engines.Consistency.{IsConsistent, is_ready_engine}
use inference_manager.Infprocessor.Send.{
  note_heartbeat, send_heartbeat_task_to_engines, send_task_to_engines, targets,
}
use inference_manager.Infprocessor.Task.{TaskError}

-- An entry after a heartbeat: as it was, or with another time.
abbrev Beaten : ℕ → Option Engine → Option Engine → Type 0
Beaten now old new = (new ≡ old) ⊎ ((e : Engine) × ((old ≡ some e) × (new ≡ some (beat now e))))

Beaten-insert :
    (now : ℕ) (id x : String) (e : Engine) (es : List (String × Engine))
    → lookup id es ≡ some e
    → Beaten now (lookup x es) (lookup x (insert id (beat now e) es))
Beaten-insert now id x e es h = elim (Bool-cases (id == x)) [
  | inl c ↦ inr (
    e,
    (
      ap (λ k. lookup k es) (sym ((==_iff id x).0 c)) ∙ h,
      lookup-insert x id (beat now e) es ∙ rw c refl,
    ),
  )
  | inr c ↦ inl (lookup-insert x id (beat now e) es ∙ rw c refl)
]

abbrev at : String → String → List (String × List (String × Engine)) → Option Engine
at t x m = lookup x (or_else (lookup t m) [])

abbrev Tenants : Type 0
Tenants = List (String × List (String × Engine))

beat_here :
    (id : String) (now : ℕ) (j : String) (es : List (String × Engine)) (m : Tenants) {e : Engine}
    → lookup id es ≡ some e
    → update_heartbeat id now ((j, es) ∷ m) ≡ some ((j, insert id (beat now e) es) ∷ m)
unfolding update_heartbeat
beat_here id now j es m h = rw (update_heartbeat, h) refl

beat_later :
    (id : String) (now : ℕ) (j : String) (es : List (String × Engine)) (m : Tenants)
    → lookup id es ≡ none
    → update_heartbeat id now ((j, es) ∷ m)
      ≡ (elim (update_heartbeat id now m) [ none ↦ none | some n ↦ some ((j, es) ∷ n) ])
unfolding update_heartbeat
beat_later id now j es m h = rw (update_heartbeat, h) refl

pub some-inj {ℓ} : {A : Type ℓ} {x y : A} → some x ≡ some y → x ≡ y
some-inj h = cc h

Beaten-cons :
    (now : ℕ) (j t x : String) (es fs : List (String × Engine)) (m n : Tenants)
    → Beaten now (lookup x es) (lookup x fs)
    → Beaten now (at t x m) (at t x n)
    → Beaten now (at t x ((j, es) ∷ m)) (at t x ((j, fs) ∷ n))
unfolding lookup
Beaten-cons now j t x es fs m n here later = elim (Bool-cases (j == t)) [
  | inl c ↦ rw c here
  | inr c ↦ rw c later
]

update_heartbeat-Beaten :
    (id : String) (now : ℕ) (m : Tenants) {m' : Tenants} (t x : String)
    → update_heartbeat id now m ≡ some m'
    → Beaten now (at t x m) (at t x m')
unfolding update_heartbeat
update_heartbeat-Beaten id now [] t x h = absurd (cc h)
update_heartbeat-Beaten id now ((j, es) ∷ m) {m'} t x h = elim (Option-cases (lookup id es)) [
  | inr (e, l) ↦
      subst (λ n. Beaten now (at t x ((j, es) ∷ m)) (at t x n))
        (some-inj (sym (beat_here id now j es m l) ∙ h))
        (Beaten-cons now j t x es (insert id (beat now e) es) m m (Beaten-insert now id x e es l)
          (inl refl))
  | inl l ↦ elim (Option-cases (update_heartbeat id now m)) [
    | inl r ↦ absurd (cc (sym (beat_later id now j es m l) ∙ h, r))
    | inr (n, r) ↦
        subst (λ n. Beaten now (at t x ((j, es) ∷ m)) (at t x n))
          (some-inj (sym (beat_later id now j es m l ∙ rw r refl) ∙ h))
          (Beaten-cons now j t x es es m n (inl refl) (update_heartbeat-Beaten id now m t x r))
  ]
]

abbrev beaten_p : Processor → Option Tenants → Processor
beaten_p p o = or_else (elim o [ none ↦ none | some m ↦ some (record p { engines = m }) ]) p

note_heartbeat-IsConsistent :
    (now : ℕ) (id : String) (p : Processor)
    → IsConsistent p
    → IsConsistent (note_heartbeat now id p)
unfolding update_last_engine_heartbeat
note_heartbeat-IsConsistent now id p v = elim (Option-cases (update_heartbeat id now p.engines)) [
  | inl h ↦ subst (λ o. IsConsistent (beaten_p p o)) (sym h) v
  | inr (m, h) ↦
      subst (λ o. IsConsistent (beaten_p p o)) (sym h)
        (record {
          keyed = λ t x e k. of_keyed t x e (update_heartbeat-Beaten id now p.engines t x h) k;
          backed = λ t x k.
              of_backed t x (update_heartbeat-Beaten id now p.engines t x h) (v.backed t x k);
        })
]
  where
    of_keyed :
        (t x : String) (e : Engine) {o : Option Engine}
        → Beaten now (lookup x (tenant_engines p t)) o
        → o ≡ some e
        → e.id ≡ x
    of_keyed t x e (inl s) k = v.keyed t x e (sym s ∙ k)
    of_keyed t x e (inr (d, (old, new))) k =
        ap (λ y. y.id) (some-inj (sym k ∙ new)) ∙ v.keyed t x d old

    of_backed :
        (t x : String) {o : Option Engine}
        → Beaten now (lookup x (tenant_engines p t)) o
        → is_ready_engine (lookup x (tenant_engines p t)) ≡ true
        → is_ready_engine o ≡ true
    of_backed t x (inl s) k = ap is_ready_engine s ∙ k
    of_backed t x (inr (d, (old, new))) k =
        ap is_ready_engine new ∙ (sym (ap is_ready_engine old) ∙ k)

send-IsConsistent :
    (sends : String × String → Option TaskError) (now : ℕ) (xs : List (String × String))
    (p : Processor)
    → IsConsistent p
    → IsConsistent (send_task_to_engines sends (note_heartbeat now) xs p).0
unfolding send_task_to_engines
send-IsConsistent sends now [] p v = v
send-IsConsistent sends now (x ∷ xs) p v = send-IsConsistent sends now xs _ (one (sends x))
  where
    one :
        (o : Option TaskError)
        → IsConsistent (elim o [ none ↦ note_heartbeat now x.1 p | some _ ↦ p ])
    one none = note_heartbeat-IsConsistent now x.1 p v
    one (some e) = v

-- A round of heartbeats, whatever the engines answer, keeps the engines and the router in step.
pub send_heartbeat-IsConsistent :
    (sends : String × String → Option TaskError) (now : ℕ) (p : Processor)
    → IsConsistent p
    → IsConsistent (send_heartbeat_task_to_engines sends now p).0
unfolding send_heartbeat_task_to_engines
send_heartbeat-IsConsistent sends now p v =
    send-IsConsistent sends now (targets (λ e. e.ready) p) p v
