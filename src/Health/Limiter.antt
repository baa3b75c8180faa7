-- ===== src/Health/Limiter.antt =====
-- probeRateLimiter of internal/api/health_handlers.go, and what it lets through. The map of last
-- calls is a function. The clock is an argument; `last_cleanup` is `none` for the zero time.
use agentlens.Common.{
  ℕ, ◌-◌, ◌<◌, String, ◌≡◌, refl, sym, ap, ◌∙◌, Bool, true, false, not, ◌⊎◌, inl, inr, Option, none,
  some, List, [], ◌∷◌, All, ltb, leb, Bool-cases, ◌==◌, eq_iff, eq_refl, if◌then◌else◌, arith,
}

pub record ProbeRateLimiter : Type 0 where
  pub last_call : String → Option ℕ
  pub last_cleanup : Option ℕ

abbrev pub new_limiter : ProbeRateLimiter
new_limiter = record { last_call = λ id. none; last_cleanup = none }

module _ (window : ℕ) where
  -- `delete` of an entry that is older than the window.
  abbrev pub evicted : ℕ → Option ℕ → Option ℕ
  evicted now none = none
  evicted now (some last) = if leb window (now - last) then none else some last

  abbrev pub cleanup_due : ℕ → Option ℕ → Bool
  cleanup_due now none = true
  cleanup_due now (some last) = leb window (now - last)

  abbrev pub cleaned : ℕ → ProbeRateLimiter → ProbeRateLimiter
  cleaned now r =
      if cleanup_due now r.last_cleanup
      then record { last_call = λ id. evicted now (r.last_call id); last_cleanup = some now }
      else r

  abbrev pub is_recent : ℕ → Option ℕ → Bool
  is_recent now none = false
  is_recent now (some last) = ltb (now - last) window

  abbrev pub put_call : String → ℕ → ProbeRateLimiter → ProbeRateLimiter
  put_call id now r = record r {
    last_call = λ other. if other == id then some now else r.last_call other;
  }

  abbrev pub admit : String → ℕ → ProbeRateLimiter → Bool × ProbeRateLimiter
  admit id now r = if is_recent now (r.last_call id) then (false, r) else (true, put_call id now r)

  unfoldable pub allow : String → ℕ → ProbeRateLimiter → Bool × ProbeRateLimiter
  allow id now r = admit id now (cleaned now r)

  -- The limiter after a sequence of calls, each with its time.
  unfoldable pub allow_all : List (String × ℕ) → ProbeRateLimiter → ProbeRateLimiter
  allow_all [] r = r
  allow_all ((id, now) ∷ cs) r = allow_all cs (allow id now r).1

  -- The lookup that `allow` makes gives the last accepted call, or that one was evicted.
  recorded :
      (id : String) (t now : ℕ) (r : ProbeRateLimiter)
      → r.last_call id ≡ some t
      → is_recent now ((cleaned now r).last_call id) ≡ ltb (now - t) window
  recorded id t now r h = elim (Bool-cases (cleanup_due now r.last_cleanup)) [
    | inl due ↦ rw due (rw h (fresh (Bool-cases (leb window (now - t)))))
    | inr not_due ↦ rw not_due (rw h refl)
  ]
    where
      fresh :
          (leb window (now - t) ≡ true) ⊎ (leb window (now - t) ≡ false)
          → is_recent now (if leb window (now - t) then none else some t) ≡ ltb (now - t) window
      fresh (inl old) = rw old (ground arith)
      fresh (inr new) = rw new refl

  kept_by_cleanup :
      (id : String) (t now : ℕ) (r : ProbeRateLimiter)
      → now - t < window
      → r.last_call id ≡ some t
      → (cleaned now r).last_call id ≡ some t
  kept_by_cleanup id t now r recent h = elim (Bool-cases (cleanup_due now r.last_cleanup)) [
    | inl due ↦
        let young : leb window (now - t) ≡ false = ground arith in rw due (rw h (rw young refl))
    | inr not_due ↦ rw not_due h
  ]

  allow-keeps :
      (id other : String) (t now : ℕ) (r : ProbeRateLimiter)
      → now - t < window
      → r.last_call id ≡ some t
      → (allow other now r).1.last_call id ≡ some t
  unfolding allow
  allow-keeps id other t now r recent h =
      elim (Bool-cases (is_recent now ((cleaned now r).last_call other))) [
        | inl blocked ↦ rw blocked (kept_by_cleanup id t now r recent h)
        | inr admitted ↦ rw admitted (unchanged (Bool-cases (id == other)) admitted)
      ]
    where
      unchanged :
          ((id == other) ≡ true) ⊎ ((id == other) ≡ false)
          → is_recent now ((cleaned now r).last_call other) ≡ false
          → (put_call other now (cleaned now r)).last_call id ≡ some t
      unchanged (inl same) admitted =
          let clash : is_recent now ((cleaned now r).last_call id) ≡ false =
            ap (λ x. is_recent now ((cleaned now r).last_call x)) ((eq_iff id other).0 same)
            ∙ admitted in
          let bounds : ltb (now - t) window ≡ false = sym (recorded id t now r h) ∙ clash in
          ground arith
      unchanged (inr differ) admitted = rw differ (kept_by_cleanup id t now r recent h)

  allow_all-keeps :
      (id : String) (t : ℕ) (cs : List (String × ℕ)) (r : ProbeRateLimiter)
      → All (λ c. c.1 - t < window) cs
      → r.last_call id ≡ some t
      → (allow_all cs r).last_call id ≡ some t
  unfolding allow_all
  allow_all-keeps id t [] r recent h = h
  allow_all-keeps id t ((other, now) ∷ cs) r recent h =
      allow_all-keeps id t cs (allow other now r).1 (recent.1)
        (allow-keeps id other t now r (recent.0) h)

  allow-admits :
      (id : String) (now : ℕ) (r : ProbeRateLimiter)
      → (allow id now r).0 ≡ true
      → (allow id now r).1.last_call id ≡ some now
  unfolding allow
  allow-admits id now r h = elim (Bool-cases (is_recent now ((cleaned now r).last_call id))) [
    | inl blocked ↦ let clash = rw blocked at h in cc
    | inr admitted ↦ rw admitted (rw (eq_refl id) refl)
  ]

  allow-first :
      (id : String) (now : ℕ) (r : ProbeRateLimiter)
      → (allow id now r).0 ≡ not (is_recent now ((cleaned now r).last_call id))
  unfolding allow
  allow-first id now r = elim (Bool-cases (is_recent now ((cleaned now r).last_call id))) [
    | inl blocked ↦ rw blocked refl
    | inr admitted ↦ rw admitted refl
  ]

  -- Once a call for an entry is let through, and after any calls for any entries less than a window
  -- later, the next call for the entry is let through exactly if a window has passed since.
  pub allow_after_window :
      (id : String) (t : ℕ) (r : ProbeRateLimiter) (cs : List (String × ℕ)) (now : ℕ)
      → (allow id t r).0 ≡ true
      → All (λ c. c.1 - t < window) cs
      → (allow id now (allow_all cs (allow id t r).1)).0 ≡ not (ltb (now - t) window)
  allow_after_window id t r cs now accepted recent =
      let kept = allow_all-keeps id t cs (allow id t r).1 recent (allow-admits id t r accepted) in
      allow-first id now (allow_all cs (allow id t r).1)
      ∙ ap not (recorded id t now (allow_all cs (allow id t r).1) kept)
