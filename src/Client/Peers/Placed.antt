-- ===== src/Client/Peers/Placed.antt =====
-- Where the connections of a peer are, and which attempts are present.
use misaka_network.Client.Peers.{
  Peer, Task, Stage, until_ready, until_turn, until_keys, until_offer, until_answer_turn,
  until_answer_keys, settling, finished, is_held,
}
use misaka_network.Common.{
  All, Bool, Bool-cases, List, Option, [], any, arith, count, false, get_elem?, if◌then◌else◌, inl,
  inr, leb, ltb, nat_eq, none, refl, set, some, subst, suc, true, zero, ℕ, ◌&&◌, ◌+◌, ◌<◌, ◌||◌,
  ◌∷◌, ◌≡◌, ◌≤◌,
}

-- The attempts of the present epoch and generation.
abbrev pub is_present : ℕ → ℕ → Task → Bool
is_present epoch gen t = nat_eq t.epoch epoch && nat_eq t.gen gen

abbrev pub PcBelow : ℕ → Stage → Type 0
PcBelow n until_ready = Unit
PcBelow n until_turn = Unit
PcBelow n (until_keys pc) = pc < n
PcBelow n (until_offer pc) = pc < n
PcBelow n until_answer_turn = Unit
PcBelow n (until_answer_keys pc) = pc < n
PcBelow n settling = Unit
PcBelow n finished = Unit

pub PcBelow-mono : (m n : ℕ) (stage : Stage) → m ≤ n → PcBelow m stage → PcBelow n stage
PcBelow-mono m n until_ready h b = tt
PcBelow-mono m n until_turn h b = tt
PcBelow-mono m n (until_keys pc) h b = omega (arith, h, b)
PcBelow-mono m n (until_offer pc) h b = omega (arith, h, b)
PcBelow-mono m n until_answer_turn h b = tt
PcBelow-mono m n (until_answer_keys pc) h b = omega (arith, h, b)
PcBelow-mono m n settling h b = tt
PcBelow-mono m n finished h b = tt

-- No attempt is from the future.
abbrev pub is_past : ℕ → ℕ → Task → Bool
is_past epoch gen t = ltb t.epoch epoch || (nat_eq t.epoch epoch && leb t.gen gen)

abbrev pub in_closed : List ℕ → ℕ → Bool
in_closed closed pc = any (λ c. nat_eq c pc) closed

-- Where every connection is: the one of the map is open, all the others are closed.
pub record Placed (next : ℕ) (connection : Option ℕ) (closed : List ℕ) : Type 0 where
  pub accounted : (pc : ℕ) → pc < next → (in_closed closed pc || is_held connection pc) ≡ true
  pub opened : (pc : ℕ) → is_held connection pc ≡ true → in_closed closed pc ≡ false
  pub made : (pc : ℕ) → (in_closed closed pc || is_held connection pc) ≡ true → pc < next

pub record Single (epoch gen : ℕ) (ts : List Task) : Type 0 where
  pub past : All (λ t. is_past epoch gen t ≡ true) ts
  pub single : count (is_present epoch gen) ts ≤ 1

pub record Sound (p : Peer) : Type 0 where
  pub placed : Placed p.next_pc p.connection p.closed
  pub bounded : All (λ t. PcBelow p.next_pc t.stage) p.tasks
  pub alone : Single p.network_epoch p.generation p.tasks

pub All-map :
    (P Q : Task → Type 0) (ts : List Task) → ((t : Task) → P t → Q t) → All P ts → All Q ts
All-map P Q [] f h = tt
All-map P Q (t ∷ ts) f h = (f t h.0, All-map P Q ts f h.1)

pub All-set_at :
    (P : Task → Type 0) (ts : List Task) (k : ℕ) (t : Task) → P t → All P ts → All P (set ts k t)
All-set_at P [] k t h hs = tt
All-set_at P (x ∷ ts) zero t h hs = (h, hs.1)
All-set_at P (x ∷ ts) (suc k) t h hs = (hs.0, All-set_at P ts k t h hs.1)

pub All-at :
    (P : Task → Type 0) (ts : List Task) (k : ℕ) (t : Task)
    → get_elem? ts k ≡ some t
    → All P ts
    → P t
All-at P [] k t e h = absurd (ground (arith, e))
All-at P (x ∷ ts) zero t e h = subst P (ground (arith, e)) h.0
All-at P (x ∷ ts) (suc k) t e h = All-at P ts k t e h.1

pub count-set_at :
    (q : Task → Bool) (ts : List Task) (k : ℕ) (t u : Task)
    → get_elem? ts k ≡ some t
    → q u ≡ q t
    → count q (set ts k u) ≡ count q ts
count-set_at q [] k t u e same = refl
count-set_at q (x ∷ ts) zero t u e same =
    let here : x ≡ t = ground (arith, e) in rw (same, here) refl
count-set_at q (x ∷ ts) (suc k) t u e same = ground (arith, count-set_at q ts k t u e same)

-- After a bump no task is present.
pub count-none :
    (epoch gen : ℕ) (ts : List Task)
    → All (λ t. is_past epoch gen t ≡ true) ts
    → count (λ t. nat_eq t.epoch epoch && nat_eq t.gen (gen + 1)) ts ≡ 0
count-none epoch gen [] h = refl
count-none epoch gen (t ∷ ts) h = ground (arith, h.0, count-none epoch gen ts h.1)

pub count-none_new :
    (epoch gen : ℕ) (ts : List Task)
    → All (λ t. is_past epoch gen t ≡ true) ts
    → (g : ℕ) → count (λ t. nat_eq t.epoch (epoch + 1) && nat_eq t.gen g) ts ≡ 0
count-none_new epoch gen [] h g = refl
count-none_new epoch gen (t ∷ ts) h g = ground (arith, h.0, count-none_new epoch gen ts h.1 g)

pub is_held-same : (o : Option ℕ) (pc d : ℕ) → is_held o pc ≡ true → is_held o d ≡ nat_eq pc d
is_held-same none pc d h = absurd (ground arith)
is_held-same (some m) pc d h = ground (arith, h)

pub abandon-Placed :
    (next pc : ℕ) (o : Option ℕ) (closed : List ℕ)
    → pc < next
    → Placed next o closed
    → Placed next (if is_held o pc then none else o) (pc ∷ closed)
abandon-Placed next pc none closed below placed = record {
  accounted = λ d h. ground (arith, placed.accounted d h);
  opened = λ d h. ground arith;
  made = λ d h. ground (arith, placed.made d);
}
abandon-Placed next pc (some m) closed below placed = elim (Bool-cases (nat_eq m pc)) [
  | inl mine ↦ rw mine (record {
    accounted = λ d h. ground (arith, mine, placed.accounted d h);
    opened = λ d h. ground arith;
    made = λ d h. ground (arith, placed.made d);
  })
  | inr other ↦ rw other (record {
    accounted = λ d h. ground (arith, placed.accounted d h);
    opened = λ d h. ground (arith, other, placed.opened d h);
    made = λ d h. ground (arith, placed.made d);
  })
]

pub close-Placed :
    (next pc : ℕ) (closed : List ℕ) → Placed next (some pc) closed → Placed next none (pc ∷ closed)
close-Placed next pc closed placed = record {
  accounted = λ d h. ground (arith, placed.accounted d h);
  opened = λ d h. ground arith;
  made = λ d h. ground (arith, placed.made d);
}

pub build-Placed :
    (next : ℕ) (closed : List ℕ) → Placed next none closed → Placed (next + 1) (some next) closed
build-Placed next closed placed = record {
  accounted = λ d h. ground (arith, placed.accounted d);
  opened = λ d h. ground (arith, placed.made d);
  made = λ d h. ground (arith, placed.made d);
}

pub bump-past :
    (epoch gen : ℕ) (t : Task) → is_past epoch gen t ≡ true → is_past epoch (gen + 1) t ≡ true
bump-past epoch gen t h = ground (arith, h)

pub bump-Single : (epoch gen : ℕ) (ts : List Task) → Single epoch gen ts → Single epoch (gen + 1) ts
bump-Single epoch gen ts s = record {
  past =
      All-map (λ t. is_past epoch gen t ≡ true) (λ t. is_past epoch (gen + 1) t ≡ true) ts
        (bump-past epoch gen) s.past;
  single = omega (arith, count-none epoch gen ts s.past);
}

-- The task of a new generation.
pub start-Single :
    (epoch gen : ℕ) (stage : Stage) (ts : List Task)
    → Single epoch gen ts
    → Single epoch (gen + 1) (record { epoch = epoch; gen = gen + 1; stage = stage } ∷ ts)
start-Single epoch gen stage ts s = record {
  past = (ground arith, (bump-Single epoch gen ts s).past);
  single = ground (arith, count-none epoch gen ts s.past);
}

pub epoch-Single : (epoch gen : ℕ) (ts : List Task) → Single epoch gen ts → Single (epoch + 1) 0 ts
epoch-Single epoch gen ts s = record {
  past =
      All-map (λ t. is_past epoch gen t ≡ true) (λ t. is_past (epoch + 1) 0 t ≡ true) ts
        (λ t h. ground (arith, h)) s.past;
  single = omega (arith, count-none_new epoch gen ts s.past 0);
}

pub set-Single :
    (epoch gen : ℕ) (ts : List Task) (k : ℕ) (t : Task) (stage : Stage)
    → get_elem? ts k ≡ some t
    → Single epoch gen ts
    → Single epoch gen (set ts k (record t { stage = stage }))
set-Single epoch gen ts k t stage at s = record {
  past =
      All-set_at (λ u. is_past epoch gen u ≡ true) ts k (record t { stage = stage })
        (All-at (λ u. is_past epoch gen u ≡ true) ts k t at s.past) s.past;
  single =
      rw (count-set_at (is_present epoch gen) ts k t (record t { stage = stage }) at refl) s.single;
}

abbrev pub is_closed : Peer → ℕ → Bool
is_closed p pc = in_closed p.closed pc
