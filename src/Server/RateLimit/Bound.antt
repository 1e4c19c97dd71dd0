-- ===== src/Server/RateLimit/Bound.antt =====
-- The limiter never admits more than its budget inside one window, whatever else the process does.
use misaka_network.Common.{
  ℕ, ◌≤◌, String, ◌≡◌, sym, inl, inr, false, ◌&&◌, List, [], ◌∷◌, Option, none, some, arith, length,
  ltb, leb, ◌==◌, if◌then◌else◌, string_keys, Bool-cases, beq_self, beq→eq,
}
use mathlib.Core.Path.{subst}
use misaka_network.Common.Dict
use misaka_network.Common.Dict.{
  Dict, Distinct, unless, put-Distinct, prune-Distinct, get-prune, get-put, get-put_self,
}
use misaka_network.Server.RateLimit.Window.{
  Inv, stamps, inside, Inv-stay, Inv-refuse, Inv-admit, length-recent, Inv-forget, length-recent,
}
use misaka_network.Server.RateLimit.{
  Windows, admit, check_rate_limit, cleanup_rate_limit_windows, recent, idle_grace_ms, is_idle,
}

-- What happens to the limiter: a request under a key, or a tick of the cleanup task.
pub data Event : Type 0 where
  request : String → ℕ → Event
  tick : ℕ → Event

abbrev pub time : Event → ℕ
time (request k now) = now
time (tick now) = now

-- The clock does not run backwards.
abbrev pub Ordered : ℕ → List Event → Type 0
Ordered now [] = Unit
Ordered now (e ∷ es) = (now ≤ time e) × Ordered (time e) es

abbrev pub finish : ℕ → List Event → ℕ
finish now [] = now
finish now (e ∷ es) = finish (time e) es

-- The windows, and the times at which a request under the watched key was admitted, newest first.
pub record Trace : Type 0 where
  pub windows : Windows
  pub admitted : List ℕ

unfoldable pub start : Trace
start = record { windows = []; admitted = [] }

-- Every key has its own budget; `key` is the one that is watched.
module _ (limit window : String → ℕ) (key : String) where
  unfoldable pub step : Trace → Event → Trace
  step s (request k now) =
      let (ok, ws) = check_rate_limit s.windows k (limit k) (window k) now in
      record { windows = ws; admitted = if (k == key) && ok then now ∷ s.admitted else s.admitted }
  step s (tick now) = record s { windows = cleanup_rate_limit_windows s.windows now }

  unfoldable pub run : Trace → List Event → Trace
  run s [] = s
  run s (e ∷ es) = run (step s e) es

module _ (limit window : String → ℕ) (key : String) where
  record TraceInv (now : ℕ) (s : Trace) : Type 0 where
    distinct : Distinct s.windows
    watched : Inv (limit key) (window key) now (stamps (Dict.get s.windows key)) s.admitted

  -- The caller's budgets: at least one request, over at most the cleanup task's grace.
  pub record Budget : Type 0 where
    pub some_room : 1 ≤ limit key
    pub short : window key ≤ idle_grace_ms

  tick-watched :
      (n now : ℕ) (o : Option (List ℕ)) (h : List ℕ)
      → Budget
      → n ≤ now
      → Inv (limit key) (window key) n (stamps o) h
      → Inv (limit key) (window key) now (stamps (unless (λ _ xs. is_idle now xs) key o)) h
  tick-watched n now none h b le inv = Inv-stay _ _ now n [] h inv le
  tick-watched n now (some xs) h b le inv = elim (Bool-cases (is_idle now xs)) [
    | inl idle ↦ rw idle (Inv-forget _ _ now n xs h inv le idle b.short)
    | inr busy ↦ rw busy (Inv-stay _ _ now n xs h inv le)
  ]

  request-watched :
      (n now : ℕ) (o : Option (List ℕ)) (h : List ℕ)
      → Budget
      → n ≤ now
      → Inv (limit key) (window key) n (stamps o) h
      → let (ok, xs) = admit o (limit key) (window key) now in
        Inv (limit key) (window key) now xs (if ok then now ∷ h else h)
  unfolding admit
  request-watched n now none h b le inv = Inv-admit _ _ now n [] h inv le b.some_room
  request-watched n now (some xs) h b le inv =
      elim (Bool-cases (leb (limit key) (length (recent (window key) now xs)))) [
        | inl full ↦ rw full (Inv-refuse _ _ now n xs h inv le)
        | inr room ↦ rw room (Inv-admit _ _ now n xs h inv le (ground arith))
      ]

  own-TraceInv :
      (n now : ℕ) (s : Trace)
      → Budget
      → n ≤ now
      → TraceInv n s
      → TraceInv now (step limit window key s (request key now))
  unfolding step check_rate_limit
  own-TraceInv n now s b le inv = record {
    distinct = put-Distinct s.windows key _ inv.distinct;
    watched =
        rw (get-put_self s.windows key, beq_self key)
          (request-watched n now (Dict.get s.windows key) s.admitted b le inv.watched);
  }

  other-TraceInv :
      (n now : ℕ) (k : String) (s : Trace)
      → (k == key) ≡ false
      → n ≤ now
      → TraceInv n s
      → TraceInv now (step limit window key s (request k now))
  unfolding step check_rate_limit
  other-TraceInv n now k s differ le inv = record {
    distinct = put-Distinct s.windows k _ inv.distinct;
    watched = rw (get-put s.windows k key, differ) (Inv-stay _ _ now n _ s.admitted inv.watched le);
  }

  step-TraceInv :
      (n : ℕ) (e : Event) (s : Trace)
      → Budget
      → n ≤ time e
      → TraceInv n s
      → TraceInv (time e) (step limit window key s e)
  unfolding step cleanup_rate_limit_windows
  step-TraceInv n (tick now) s b le inv = record {
    distinct = prune-Distinct _ s.windows inv.distinct;
    watched =
        rw (get-prune (λ _ xs. is_idle now xs) s.windows key inv.distinct)
          (tick-watched n now (Dict.get s.windows key) s.admitted b le inv.watched);
  }
  step-TraceInv n (request k now) s b le inv = elim (Bool-cases (k == key)) [
    | inl same ↦
        subst (λ j. TraceInv now (step limit window key s (request j now)))
          (sym (beq→eq k key same)) (own-TraceInv n now s b le inv)
    | inr differ ↦ other-TraceInv n now k s differ le inv
  ]

  run-TraceInv :
      (n : ℕ) (es : List Event) (s : Trace)
      → Budget
      → Ordered n es
      → TraceInv n s
      → TraceInv (finish n es) (run limit window key s es)
  unfolding run
  run-TraceInv n [] s b o inv = inv
  run-TraceInv n (e ∷ es) s b o inv =
      run-TraceInv (time e) es (step limit window key s e) b o.1 (step-TraceInv n e s b o.0 inv)

  start-TraceInv : TraceInv 0 start
  unfolding start Dict.get
  start-TraceInv = record {
    distinct = tt;
    watched = record {
      ascending = tt;
      past = tt;
      bounded = λ t. omega arith;
      cover = λ t le. omega arith;
    };
  }

  verdict :
      (n now : ℕ) (o : Option (List ℕ)) (h : List ℕ)
      → Budget
      → n ≤ now
      → Inv (limit key) (window key) n (stamps o) h
      → (admit o (limit key) (window key) now).0 ≡ ltb (inside (window key) now h) (limit key)
  unfolding admit
  verdict n now none h b le inv = ground (arith, inv.cover now, b.some_room)
  verdict n now (some xs) h b le inv = ground (arith, length-recent _ _ now n xs h inv le)

  -- From an empty limiter, under any requests of any keys and any cleanup ticks, with a clock that
  -- does not run backwards: if the budget of `key` is at least one request over at most the two
  -- minutes of the cleanup's grace, then every window of that length, wherever it ends, holds at
  -- most `limit key` admitted requests of `key`.
  pub admitted_bounded :
      (es : List Event)
      → Budget
      → Ordered 0 es
      → (t : ℕ) → inside (window key) t (run limit window key start es).admitted ≤ limit key
  admitted_bounded es b o = (run-TraceInv 0 es start b o start-TraceInv).watched.bounded

  -- After such a history, a request of `key` at any later time is admitted exactly when fewer than
  -- `limit key` requests of `key` were admitted inside the window that ends at that time.
  pub verdict_exact :
      (es : List Event) (now : ℕ)
      → Budget
      → Ordered 0 es
      → finish 0 es ≤ now
      → let s = run limit window key start es in
        (check_rate_limit s.windows key (limit key) (window key) now).0
        ≡ ltb (inside (window key) now s.admitted) (limit key)
  unfolding check_rate_limit
  verdict_exact es now b o le =
      let inv = run-TraceInv 0 es start b o start-TraceInv in
      verdict (finish 0 es) now _ _ b le inv.watched
