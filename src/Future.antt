-- ===== src/Future.antt =====
-- agent/async/future.go: a result that is read from a channel once. A lock that is held is waited for,
-- also by the goroutine that holds it: such a call never returns.
use findy_agent.Common.{
  ℕ, String, Bool, true, false, ◌≡◌, refl, ap, Option, none, some, List, [], ◌∷◌, if◌then◌else◌,
  arith,
}

pub data State : Type 0 where
  empty triggered consumed : State

-- `indyDto.Result`: what the accessors read, and its error.
pub record Result : Type 0 where
  pub handle : ℕ
  pub str1 : String
  pub str2 : String
  pub str3 : String
  pub error : Option String

-- `ch` is what the channel will give, in order.
pub record Future : Type 0 where
  pub on : State
  pub v : Option Result
  pub ch : List Result
  pub locked : Bool

-- How a call ends: it returns, it throws, or it waits forever.
pub data Call (A : Type 0) : Type 0 where
  returns : A → Future → Call A
  throws : String → Future → Call A
  blocked : Call A

abbrev pub unlock : {A : Type 0} → Call A → Call A
unlock (returns a f) = returns a (record f { locked = false })
unlock (throws e f) = throws e (record f { locked = false })
unlock blocked = blocked

-- f.lo.Lock() and defer f.lo.Unlock() around a body.
abbrev pub with_lock : {A : Type 0} → (Future → Call A) → Future → Call A
with_lock body f = if f.locked then blocked else unlock (body (record f { locked = true }))

abbrev pub is_triggered : State → Bool
is_triggered triggered = true
is_triggered _ = false

abbrev pub is_empty_state : State → Bool
is_empty_state empty = true
is_empty_state _ = false

-- r := <-f.ch, and what follows it.
unfoldable pub consume : Future → List Result → Call (Option Result)
consume f [] = blocked
consume f (r ∷ rs) =
    let f' = record f { on = consumed; v = some r; ch = rs } in
    elim r.error [ none ↦ returns (some r) f' | some e ↦ throws e f' ]

unfoldable pub value_body : Future → Call (Option Result)
value_body f = if is_triggered f.on then consume f f.ch else returns f.v f

unfoldable pub value : Future → Call (Option Result)
value f = with_lock value_body f

unfoldable pub is_empty : Future → Call Bool
is_empty f = with_lock (λ f. returns (is_empty_state f.on) f) f

-- SetChan's body after the old result is eaten.
abbrev pub set_after : List Result → Call (Option Result) → Call (Unit {0})
set_after ch (returns r f) = returns tt (record f { ch = ch; on = triggered })
set_after ch (throws e f) = throws e f
set_after ch blocked = blocked

-- SetChan: where a result is pending it is read first, by `value`.
unfoldable pub set_chan : List Result → Future → Call (Unit {0})
set_chan ch f =
    with_lock
      (λ f.
        if is_triggered f.on
        then set_after ch (value f)
        else returns tt (record f { ch = ch; on = triggered }))
      f

-- NewFuture
unfoldable pub new_future : List Result → Call (Unit {0})
new_future ch = set_chan ch (record { on = empty; v = none; ch = []; locked = false })

-- SetChan never returns on a future whose result is pending.
pub set_chan_blocks : (ch : List Result) (f : Future) → f.on ≡ triggered → set_chan ch f ≡ blocked
unfolding set_chan value
set_chan_blocks ch f e = ground arith

consume_fine :
    (f : Future) (r : Result) (rs : List Result)
    → r.error ≡ none
    → consume f (r ∷ rs) ≡ returns (some r) (record f { on = consumed; v = some r; ch = rs })
unfolding consume
consume_fine f r rs n =
    let f' = record f { on = consumed; v = some r; ch = rs } in
    ap (λ (o : Option String). elim o [ none ↦ returns (some r) f' | some e ↦ throws e f' ]) n

-- A pending result without an error is read from the channel once: a second reading gives it again, and
-- leaves the future as the first one did.
pub value_twice :
    (f : Future) (r : Result) (rs : List Result)
    → f.on ≡ triggered
    → f.locked ≡ false
    → f.ch ≡ r ∷ rs
    → r.error ≡ none
    → (f' : Future) × (value f ≡ returns (some r) f')
      × (value f' ≡ returns (some r) f')
      × (f'.ch ≡ rs)
unfolding value value_body consume
value_twice f r rs e l c n = (
  record { on = consumed; v = some r; ch = rs; locked = false },
  rw (value, l, value_body, e, c) (ap unlock (consume_fine (record f { locked = true }) r rs n)),
  refl,
  refl,
)
