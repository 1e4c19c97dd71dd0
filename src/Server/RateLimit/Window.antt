-- ===== src/Server/RateLimit/Window.antt =====
-- The stamps of one key against the times at which its requests were admitted.
use misaka_network.Common.{
  ℕ, ◌+◌, ◌≤◌, ◌<◌, ◌≡◌, refl, inl, inr, Bool, true, ◌&&◌, List, [], ◌∷◌, ◌++◌, Option, none, some,
  arith, length, filter, count, All, All-filter, All-append, count-append, ltb, leb, leb→le,
  string_keys, Bool-cases,
}
use misaka_network.Server.RateLimit.{recent, last_or_zero, idle_grace_ms, is_idle}

-- The stamps that a window ending at `t` holds.
abbrev pub inside : ℕ → ℕ → List ℕ → ℕ
inside window t = count (λ x. leb x t && ltb t (x + window))

inside-recent :
    (window now t : ℕ) (xs : List ℕ)
    → now ≤ t
    → inside window t (recent window now xs) ≡ inside window t xs
inside-recent window now t [] h = refl
inside-recent window now t (x ∷ xs) h = ground (arith, inside-recent window now t xs)

inside-le-length : (window t : ℕ) (xs : List ℕ) → inside window t xs ≤ length xs
inside-le-length window t [] = omega arith
inside-le-length window t (x ∷ xs) = ground (arith, inside-le-length window t xs)

inside_past :
    (window now : ℕ) (xs : List ℕ)
    → All (λ y. y ≤ now) xs
    → length (recent window now xs) ≡ inside window now xs
inside_past window now [] b = refl
inside_past window now (x ∷ xs) b = ground (arith, inside_past window now xs b.1)

abbrev Ascending : List ℕ → Type 0
Ascending [] = Unit
Ascending (x ∷ xs) = All (λ y. x ≤ y) xs × Ascending xs

Ascending-filter : (p : ℕ → Bool) (xs : List ℕ) → Ascending xs → Ascending (filter p xs)
Ascending-filter p [] h = tt
Ascending-filter p (x ∷ xs) h =
    ground (arith, All-filter (λ y. x ≤ y) p xs h.0, Ascending-filter p xs h.1)

Ascending-snoc :
    (now : ℕ) (xs : List ℕ) → Ascending xs → All (λ y. y ≤ now) xs → Ascending (xs ++ now ∷ [])
Ascending-snoc now [] h b = (tt, tt)
Ascending-snoc now (x ∷ xs) h b =
    (All-append (λ y. x ≤ y) xs (now ∷ []) h.0 (b.0, tt), Ascending-snoc now xs h.1 b.1)

All-le-last :
    (x : ℕ) (xs : List ℕ) → Ascending (x ∷ xs) → All (λ y. y ≤ last_or_zero (x ∷ xs)) (x ∷ xs)
All-le-last x [] h = (omega arith, tt)
All-le-last x (y ∷ xs) h = let rest = All-le-last y xs h.1 in (omega (arith, rest.0, h.0.0), rest)

inside-none :
    (window t n : ℕ) (xs : List ℕ) → All (λ y. y ≤ n) xs → n + window ≤ t → inside window t xs ≡ 0
inside-none window t n [] b h = refl
inside-none window t n (x ∷ xs) b h = ground (arith, inside-none window t n xs b.1)

All-le_mono : (m n : ℕ) (xs : List ℕ) → m ≤ n → All (λ y. y ≤ m) xs → All (λ y. y ≤ n) xs
All-le_mono m n [] h b = tt
All-le_mono m n (x ∷ xs) h b = (omega arith, All-le_mono m n xs h b.1)

-- An idle list has no stamp left inside a window of at most two minutes.
inside_idle :
    (window now t : ℕ) (xs : List ℕ)
    → Ascending xs
    → is_idle now xs ≡ true
    → window ≤ idle_grace_ms
    → now ≤ t
    → inside window t xs ≡ 0
inside_idle window now t [] a i w h = refl
inside_idle window now t (x ∷ xs) a i w h =
    inside-none window t (last_or_zero (x ∷ xs)) (x ∷ xs) (All-le-last x xs a) (ground arith)

abbrev pub stamps : Option (List ℕ) → List ℕ
stamps none = []
stamps (some xs) = xs

pub record Inv (limit window : ℕ) (now : ℕ) (stamped admitted : List ℕ) : Type 0 where
  pub ascending : Ascending stamped
  pub past : All (λ y. y ≤ now) stamped
  pub bounded : (t : ℕ) → inside window t admitted ≤ limit
  pub cover : (t : ℕ) → now ≤ t → inside window t admitted ≡ inside window t stamped

module _ (limit window now n : ℕ) (s h : List ℕ) (inv : Inv limit window n s h)
    (later : n ≤ now) where
  pub Inv-stay : Inv limit window now s h
  Inv-stay = record {
    ascending = inv.ascending;
    past = All-le_mono n now s later inv.past;
    bounded = inv.bounded;
    cover = λ t le. inv.cover t (omega arith);
  }

  pub Inv-refuse : Inv limit window now (recent window now s) h
  Inv-refuse = record {
    ascending = Ascending-filter _ s inv.ascending;
    past = All-filter _ _ s (All-le_mono n now s later inv.past);
    bounded = inv.bounded;
    cover = λ t le. omega (arith, inv.cover t (omega arith), inside-recent window now t s le);
  }

  pub Inv-admit :
      length (recent window now s) < limit
      → Inv limit window now (recent window now s ++ now ∷ []) (now ∷ h)
  Inv-admit room = record {
    ascending =
        Ascending-snoc now (recent window now s) (Ascending-filter _ s inv.ascending)
          (All-filter _ _ s (All-le_mono n now s later inv.past));
    past =
        All-append _ (recent window now s) (now ∷ [])
          (All-filter _ _ s (All-le_mono n now s later inv.past)) (omega arith, tt);
    bounded = λ t. elim (Bool-cases (leb now t)) [
      | inl yet ↦ ground (
        arith,
        inv.cover t,
        inside-recent window now t s (leb→le now t yet),
        inside-le-length window t (recent window now s),
      )
      | inr before ↦ ground (arith, inv.bounded t)
    ];
    cover = λ t le. ground (
      arith,
      inv.cover t,
      inside-recent window now t s le,
      count-append (λ x. leb x t && ltb t (x + window)) (recent window now s) (now ∷ []),
    );
  }

  pub Inv-forget : is_idle now s ≡ true → window ≤ idle_grace_ms → Inv limit window now [] h
  Inv-forget idle short = record {
    ascending = tt;
    past = tt;
    bounded = inv.bounded;
    cover = λ t le.
        omega (
          arith,
          inv.cover t (omega arith),
          inside_idle window now t s inv.ascending idle short le,
        );
  }

  -- What the limiter counts is what the history holds.
  pub length-recent : length (recent window now s) ≡ inside window now h
  length-recent =
      omega
        (arith, inv.cover now later, inside_past window now s (All-le_mono n now s later inv.past))
