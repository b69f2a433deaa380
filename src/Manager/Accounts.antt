-- ===== src/Manager/Accounts.antt =====
-- Every event provider that the manager has built is kept, waits to be closed, or is closed.
use mathlib.Core.Path.{ap, ◌∙◌}
use broker_bridge.Base.{
  ℕ, ◌+◌, ◌≡◌, refl, inl, inr, Option, none, some, List, [], ◌∷◌, arith, ltb, ◌==◌, if◌then◌else◌,
  Bool-cases, Option-cases, count_by, ℤ,
}
use broker_bridge.Models.{ProviderKind}
use broker_bridge.Providers.{EventAdapter}
use broker_bridge.Manager.{
  Handle, Manager, same_version, Selector, stale_with, invalidate, close_all, close_stale, retire,
  install, serve,
}

abbrev pub count_closed : ℕ → List ℕ → ℕ
count_closed = count_by (λ k. k)

module _ {F : Type 0} (n : ℕ) where
  abbrev pub cached : Option (Handle F) → ℕ
  cached none = 0
  cached (some h) = if h.made == n then 1 else 0

  abbrev pub waiting : List (Handle F) → ℕ
  waiting = count_by (λ (h : Handle F). h.made) n

  -- How often the provider with that number is in the manager's hands.
  abbrev pub held : Manager F → ℕ
  held m = cached m.event + (waiting m.stale + count_closed n m.closed)

  waiting-stale_with :
      (e : Option (Handle F)) (l : List (Handle F))
      → waiting (stale_with e l) ≡ cached e + waiting l
  waiting-stale_with none l = omega arith
  waiting-stale_with (some h) l = refl

  count_closed-close_all :
      (l : List (Handle F)) (closed : List ℕ)
      → count_closed n (close_all l closed) ≡ waiting l + count_closed n closed
  count_closed-close_all [] closed = omega arith
  count_closed-close_all (h ∷ l) closed = omega (arith, count_closed-close_all l (h.made ∷ closed))

  close_stale-held : (m : Manager F) → held (close_stale m) ≡ held m
  unfolding close_stale
  close_stale-held m = omega (arith, count_closed-close_all m.stale m.closed)

  invalidate-held : (s : Selector) (m : Manager F) → held (invalidate s m) ≡ held m
  unfolding invalidate
  invalidate-held Selector.everything m = omega (arith, waiting-stale_with m.event m.stale)
  invalidate-held (Selector.one ProviderKind.event) m =
      omega (arith, waiting-stale_with m.event m.stale)
  invalidate-held (Selector.one ProviderKind.infrastructure) m = refl
  invalidate-held (Selector.one ProviderKind.lock) m = refl
  invalidate-held (Selector.one ProviderKind.session) m = refl
  invalidate-held (Selector.one ProviderKind.broker_default) m = refl
  invalidate-held (Selector.one ProviderKind.cache) m = refl

-- Each of the providers built so far is in one place, once.
abbrev pub IsAccounted : {F : Type 0} → Manager F → Type 0
IsAccounted m = (n : ℕ) → held n m ≡ (if ltb n m.builds then 1 else 0)

module _ {F : Type 0} where
  invalidate-builds : (s : Selector) (m : Manager F) → (invalidate s m).builds ≡ m.builds
  unfolding invalidate
  invalidate-builds Selector.everything m = refl
  invalidate-builds (Selector.one ProviderKind.event) m = refl
  invalidate-builds (Selector.one ProviderKind.infrastructure) m = refl
  invalidate-builds (Selector.one ProviderKind.lock) m = refl
  invalidate-builds (Selector.one ProviderKind.session) m = refl
  invalidate-builds (Selector.one ProviderKind.broker_default) m = refl
  invalidate-builds (Selector.one ProviderKind.cache) m = refl

  pub invalidate-IsAccounted :
      (s : Selector) (m : Manager F) → IsAccounted m → IsAccounted (invalidate s m)
  invalidate-IsAccounted s m h n = rw (invalidate-held n s m, invalidate-builds s m) (h n)

  pub close_stale-IsAccounted : (m : Manager F) → IsAccounted m → IsAccounted (close_stale m)
  unfolding close_stale
  close_stale-IsAccounted m h n = close_stale-held n m ∙ h n

  retire-IsAccounted : (m : Manager F) → IsAccounted m → IsAccounted (retire m)
  unfolding close_stale
  retire-IsAccounted m h n =
      close_stale-held n (record m { event = none; stale = stale_with m.event m.stale })
      ∙ (omega (arith, waiting-stale_with n m.event m.stale) ∙ h n)

  install-IsAccounted :
      (a : EventAdapter F) (v : ℤ) (m : Manager F)
      → m.event ≡ none
      → IsAccounted m
      → IsAccounted (install a v m).1
  install-IsAccounted a v m empty h n =
      let none' : cached n m.event ≡ 0 = ap (cached n) empty in
      elim (Bool-cases (m.builds == n)) [
        | inl new ↦ rw new (ground (arith, h n, none', new))
        | inr old ↦ rw old (ground (arith, h n, none', old))
      ]

  pub serve-IsAccounted :
      (a : EventAdapter F) (v : ℤ) (m : Manager F) → IsAccounted m → IsAccounted (serve a v m).1
  unfolding serve
  serve-IsAccounted a v m h = elim (Option-cases m.event) [
    | inl empty ↦ rw (empty, serve) (install-IsAccounted a v m empty h)
    | inr (k, e) ↦ elim (Bool-cases (same_version m.event_version v)) [
      | inl same ↦ rw (e, same, serve) h
      | inr other ↦
          rw (e, other, serve) (install-IsAccounted a v (retire m) refl (retire-IsAccounted m h))
    ]
  ]
