-- ===== src/Prot/Path/Steps.antt =====
-- One UpdatePSM that succeeds: the machine has gone one sub state further.
use findy_agent.Common.{
  ℕ, ◌+◌, String, true, false, ◌≡◌, refl, sym, ap, ◌∙◌, none, some, List, [], ◌∷◌, ◌++◌, map,
  map-append, head?, last?, last?-append_one, inl, inr, Option-cases, Bool-cases, some_inj, ◌==◌,
  arith,
}
use findy_agent.Common.Table.{get, put, get-put_self}
use findy_agent.Common.Exec.{Outcome, ok}
use findy_agent.Pltype.{user_action, nothing, protocol_role_for_type}
use findy_agent.Didcomm.{Msg}
use findy_agent.Psm.{
  StateKey, key_eq, Psm, State, Task, first_state, last_state, pending_user_action, protocol,
}
use findy_agent.Psm.Sub.{SubState, accepts}
use findy_agent.Prot.World.{World, Env, Proc, find_psm, add_psm, read_clock, spawn}
use findy_agent.Prot.Update.{
  update_psm, update_found, store_and_trigger, extend, fresh, fresh_role, new_state, resolved_type,
  first_type, is_unknown,
}
use findy_agent.Prot.Update.Step.{task_key, at_time}
use findy_agent.Prot.History.Update.{accept-last}
use mathlib.Core.Path.{subst}
use findy_agent.Prot.Ends.{Ends, Ends-weaken}
use findy_agent.Prot.Path.{IsTyped, IsHealthy, Trace, Last}

-- A call that is certain to give a value.
abbrev Gives : {A : Type 0} → Outcome A → Type 0
Gives {A} r = (a : A) × (r ≡ ok a)

pending-Gives :
    (m : Psm) (s : State)
    → last_state m ≡ some s
    → IsTyped s.pl_type
    → Gives (pending_user_action m)
unfolding pending_user_action
pending-Gives m s e t = elim (Bool-cases (s.pl_type == "")) [
  | inl empty ↦ (false, rw (pending_user_action, e, empty) refl)
  | inr full ↦ (user_action == t.msg, rw (pending_user_action, e, full, t.has_msg) refl)
]

protocol-Gives :
    (m : Psm) (s : State) → first_state m ≡ some s → IsTyped s.pl_type → Gives (protocol m)
unfolding protocol
protocol-Gives m s e t = elim (Bool-cases (s.pl_type == "")) [
  | inl empty ↦ ("", rw (protocol, e, empty) refl)
  | inr full ↦ (t.family, rw (protocol, e, full, t.has_family) refl)
]

resolved-Gives :
    (m : Psm) (s : State) (opl : Msg) → first_state m ≡ some s → Gives (resolved_type m opl)
unfolding resolved_type
resolved-Gives m s opl e = elim (Bool-cases (opl.type == nothing)) [
  | inl empty ↦ (s.pl_type, rw (resolved_type, empty, first_type, e) refl)
  | inr full ↦ (opl.type, rw (resolved_type, full) refl)
]

role-Gives : (task : Task) (opl : Msg) → IsTyped opl.type → Gives (fresh_role task opl)
unfolding fresh_role
role-Gives task opl t = elim (Bool-cases (is_unknown task.role)) [
  | inl u ↦ (protocol_role_for_type t.msg, rw (fresh_role, u, t.has_msg) refl)
  | inr k ↦ (task.role, rw (fresh_role, k) refl)
]

last?-map :
    {A B : Type 0} (f : A → B) (xs : List A) (x : A)
    → last? xs ≡ some x
    → last? (map f xs) ≡ some (f x)
last?-map f [] x e = absurd (ground arith)
last?-map f (y ∷ []) x e = ap (λ z. some (f z)) (some_inj e)
last?-map f (y ∷ z ∷ xs) x e = last?-map f (z ∷ xs) x e

no_last :
    (states : List State) (from : SubState)
    → last? states ≡ none
    → last? (map (λ (s : State). s.sub) states) ≡ some from
    → ⊥
no_last [] from n e = ground arith
no_last (y ∷ []) from n e = ground arith
no_last (y ∷ z ∷ states) from n e = no_last (z ∷ states) from n e

-- The state whose sub state is the last one.
last_of :
    (states : List State) (subs : List SubState) (from : SubState)
    → map (λ (s : State). s.sub) states ≡ subs
    → last? subs ≡ some from
    → (s : State) × (last? states ≡ some s) × (s.sub ≡ from)
last_of states subs from th l = elim (Option-cases (last? states)) [
  | inl none_last ↦ absurd (no_last states from none_last (ap last? th ∙ l))
  | inr (s, e) ↦
      (s, e, some_inj (sym (last?-map (λ (x : State). x.sub) states s e) ∙ ap last? th ∙ l))
]

head?-append_some :
    {A : Type 0} (xs ys : List A) (x : A) → head? xs ≡ some x → head? (xs ++ ys) ≡ some x
head?-append_some [] ys x e = absurd (ground arith)
head?-append_some (y ∷ xs) ys x e = e

-- A run that goes on as another does.
pub Ends-as :
    {A : Type 0} {P : A → World → Type 0} (m n : Proc A) (w w' : World)
    → m w ≡ n w'
    → Ends n w' P
    → Ends m w P
Ends-as {P} m n w w' e d = record {
  value = d.value;
  returns = ap (λ r. r.0) e ∙ d.returns;
  post = subst (λ r. P d.value r.1) (sym e) d.post;
}

Trace-stored :
    (key : StateKey) (subs : List SubState) (type : String) (m : Psm) (first : State) (w w' : World)
    → w'.psms ≡ put w.psms m.key m
    → m.key ≡ key
    → first_state m ≡ some first
    → first.pl_type ≡ type
    → map (λ (s : State). s.sub) m.states ≡ subs
    → Trace key subs type w'
Trace-stored key subs type m first w w' p k f t th = record {
  machine = m;
  at = ap (λ ps. get ps key) p ∙ ap (λ j. get (put w.psms j m) key) k ∙ get-put_self w.psms key m;
  keyed = k;
  first = first;
  is_first = f;
  typed = t;
  through = th;
}

Last-stored :
    (key : StateKey) (type : String) (m : Psm) (s : State) (w w' : World)
    → w'.psms ≡ put w.psms m.key m
    → m.key ≡ key
    → last_state m ≡ some s
    → s.pl_type ≡ type
    → Last key type w'
Last-stored key type m s w w' p k l t = record {
  machine = m;
  at = ap (λ ps. get ps key) p ∙ ap (λ j. get (put w.psms j m) key) k ∙ get-put_self w.psms key m;
  state = s;
  is_last = l;
  typed = t;
}

module _ (env : Env) (healthy : IsHealthy env) (did conn_id : String) (task : Task) (opl : Msg)
    (st : SubState) where
  -- A machine with these first and last states is stored.
  store_ends :
      (now : ℕ) (m : Psm) (first last : State) (w : World)
      → first_state m ≡ some first
      → last_state m ≡ some last
      → IsTyped first.pl_type
      → IsTyped last.pl_type
      → Ends
          (store_and_trigger env did conn_id task opl st now m)
          w
          (λ _ w'. w'.psms ≡ put w.psms m.key m)
  unfolding store_and_trigger add_psm spawn
  store_ends now m first last w ef el tf tl =
      let (t, et) = resolved-Gives m first opl ef in
      let (p, ep) = pending-Gives m last el tl in
      let (f, eff) = protocol-Gives m first ef tf in
      record {
        value = tt;
        returns = rw (store_and_trigger, add_psm, healthy.adds w m, et, ep, eff) refl;
        post = rw (store_and_trigger, add_psm, healthy.adds w m, et, ep, eff) refl;
      }

  -- A machine that has gone so far goes to a sub state that the rules accept from the last one.
  pub update-Last :
      (subs : List SubState) (type : String) (from : SubState) (w : World)
      → Trace (task_key did task) subs type w
      → last? subs ≡ some from
      → accepts from st ≡ true
      → IsTyped type
      → IsTyped opl.type
      → Ends (update_psm env did conn_id task opl st) w (λ _ w'.
        Trace (task_key did task) (subs ++ st ∷ []) type w' × Last (task_key did task) opl.type w')
  unfolding update_psm find_psm read_clock update_found extend
  update-Last subs type from w past lf ok_from tt_ to =
      let key = task_key did task in
      let now = w.clock + env.elapse w in
      let m = past.machine in
      let s = new_state now task opl st in
      let n = extend m conn_id s in
      let last_at = last_of past.machine.states subs from past.through lf in
      let runs : update_psm env did conn_id task opl st w
          ≡ store_and_trigger env did conn_id task opl st now n (at_time w now) =
        rw
          (
            update_psm,
            find_psm,
            healthy.finds w key,
            past.at,
            read_clock,
            update_found,
            accept-last m last_at.0 st last_at.1,
            last_at.2,
            ok_from,
          )
          refl in
      let first_typed : IsTyped past.first.pl_type = subst IsTyped (sym past.typed) tt_ in
      Ends-as (update_psm env did conn_id task opl st)
        (store_and_trigger env did conn_id task opl st now n) w (at_time w now) runs
        (Ends-weaken (store_and_trigger env did conn_id task opl st now n) (at_time w now)
          (store_ends now n past.first s (at_time w now)
            (head?-append_some m.states (s ∷ []) past.first past.is_first)
            (last?-append_one m.states s) first_typed to)
          (λ _ w' p. (
            Trace-stored key (subs ++ st ∷ []) type n past.first (at_time w now) w' p past.keyed
                (head?-append_some m.states (s ∷ []) past.first past.is_first) past.typed
                (map-append (λ (x : State). x.sub) m.states (s ∷ [])
                  ∙ ap (λ xs. xs ++ st ∷ []) past.through),
            Last-stored key opl.type n s (at_time w now) w' p past.keyed
                (last?-append_one m.states s) refl,
          )))

  pub update_ends :
      (subs : List SubState) (type : String) (from : SubState) (w : World)
      → Trace (task_key did task) subs type w
      → last? subs ≡ some from
      → accepts from st ≡ true
      → IsTyped type
      → IsTyped opl.type
      → Ends
          (update_psm env did conn_id task opl st)
          w
          (λ _ w'. Trace (task_key did task) (subs ++ st ∷ []) type w')
  update_ends subs type from w past lf ok_from tt_ to =
      Ends-weaken (update_psm env did conn_id task opl st) w
        (update-Last subs type from w past lf ok_from tt_ to) (λ _ w' p. p.0)

  -- A machine that is not there is made.
  pub update_ends_new :
      (w : World)
      → get w.psms (task_key did task) ≡ none
      → IsTyped opl.type
      → Ends
          (update_psm env did conn_id task opl st)
          w
          (λ _ w'. Trace (task_key did task) (st ∷ []) opl.type w')
  unfolding update_psm find_psm read_clock update_found
  update_ends_new w e t =
      let key = task_key did task in
      let now = w.clock + env.elapse w in
      let s = new_state now task opl st in
      let (role, er) = role-Gives task opl t in
      let m = fresh key conn_id task s role in
      let runs : update_psm env did conn_id task opl st w
          ≡ store_and_trigger env did conn_id task opl st now m (at_time w now) =
        rw (update_psm, find_psm, healthy.finds w key, e, read_clock, update_found, er) refl in
      Ends-as (update_psm env did conn_id task opl st)
        (store_and_trigger env did conn_id task opl st now m) w (at_time w now) runs
        (Ends-weaken (store_and_trigger env did conn_id task opl st now m) (at_time w now)
          (store_ends now m s s (at_time w now) refl refl t t)
          (λ _ w' p.
            Trace-stored key (st ∷ []) opl.type m s (at_time w now) w' p refl refl refl refl))
