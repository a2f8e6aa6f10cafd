-- ===== src/Mailbox/Readiness.antt =====
-- The descriptor of a mailbox in itc.c: readable exactly while messages are waiting.
use itc_framework.Base.{
  ℕ, zero, suc, ◌≡◌, refl, sym, ap, ◌∙◌, Bool, true, false, Option, none, some, List, [], ◌∷◌,
  is_some, pos, get_elem?, set,
}
use mathlib.Core.Path.{subst}
use mathlib.Core.Option.{some-injective}
use itc_framework.Mailbox.{inc, dec, is_zero, EventFd, EventFdLaws, Envelope, Mailbox}
use itc_framework.Mailbox.Calls.{wake_fd, quiet_fd, announce, received, took, open_fd}

-- What a write keeps of a list's elements.
pub set-keeps :
    {A : Type 0} (P : A → Type 0) (t : List A) (i : ℕ) (a : A)
    → ((j : ℕ) (x : A) → get_elem? t j ≡ some x → P x)
    → P a
    → (j : ℕ) (x : A) → get_elem? (set t i a) j ≡ some x
    → P x
set-keeps P [] i a all new j x e = cc
set-keeps P (y ∷ t) zero a all new zero x e = subst P (some-injective _ _ e) new
set-keeps P (y ∷ t) zero a all new (suc j) x e = all (suc j) x e
set-keeps P (y ∷ t) (suc i) a all new zero x e = all zero x e
set-keeps P (y ∷ t) (suc i) a all new (suc j) x e =
    set-keeps P t i a (λ k z f. all (suc k) z f) new j x e

abbrev pub waiting : ℕ → Bool
waiting zero = false
waiting (suc n) = true

module _ {F : Type 0} (api : EventFd F) where
  -- The mailbox counts `n` messages, and its descriptor, if there is one, is readable unless `n` is 0.
  pub record Signals (n : ℕ) (m : Mailbox F) : Type 0 where
    pub count : m.rxq_len ≡ pos n
    pub ready : (f : F) → m.rxq_fd ≡ some f → api.readable f ≡ waiting n

  abbrev pub Signalling : Mailbox F → Type 0
  Signalling m = (n : ℕ) × Signals n m

  module _ (laws : EventFdLaws api) where
    wake_fd-ready :
        (n : ℕ) (o : Option F)
        → ((f : F) → o ≡ some f → api.readable f ≡ waiting n)
        → (g : F) → wake_fd api (pos n) o ≡ some g
        → api.readable g ≡ true
    unfolding wake_fd
    wake_fd-ready n none ready g e = cc
    wake_fd-ready zero (some f) ready g e =
        let (f', written, there) = laws.write_ok f (ready f refl) in
        subst (λ x. api.readable x ≡ true) (some-injective _ _ (rw written at e)) there
    wake_fd-ready (suc n) (some f) ready g e =
        subst (λ x. api.readable x ≡ true) (some-injective _ _ e) (ready f refl)

    pub announce-Signals :
        {n : ℕ} (m : Mailbox F) → m.attached ≡ true → Signals n m → Signals (suc n) (announce api m)
    unfolding announce
    announce-Signals {n} m on s = rw on (record {
      count = ap inc s.count;
      ready = λ g e.
          wake_fd-ready n m.rxq_fd s.ready g (ap (λ l. wake_fd api l m.rxq_fd) (sym s.count) ∙ e);
    })

    quiet_fd-ready :
        (n : ℕ) (o : Option F)
        → ((f : F) → o ≡ some f → api.readable f ≡ true)
        → (o' : Option F) × (quiet_fd api (pos n) o ≡ some o')
          × ((f : F) → o' ≡ some f → api.readable f ≡ waiting n)
    unfolding quiet_fd
    quiet_fd-ready n none ready = (none, refl, λ f e. cc)
    quiet_fd-ready zero (some f) ready =
        let (f', read, blank) = laws.read_ok f (ready f refl) in
        (some f', rw read, λ g e. subst (λ x. api.readable x ≡ false) (some-injective _ _ e) blank)
    quiet_fd-ready (suc n) (some f) ready = (some f, refl, λ g e. ready g e)

    pub took-Signals :
        {n : ℕ} (m : Mailbox F) (e : Envelope)
        → Signals (suc n) m
        → (m' : Mailbox F) × (took api m e ≡ (received e, m'))
          × Signals n m'
          × (m'.is_in_rx ≡ false)
    unfolding took
    took-Signals {n} m e s =
        let (fd, done, ready) = quiet_fd-ready n m.rxq_fd s.ready in
        let read : quiet_fd api (dec m.rxq_len) m.rxq_fd ≡ some fd =
          ap (λ l. quiet_fd api (dec l) m.rxq_fd) s.count ∙ done in
        let m1 : Mailbox F = record m { rxq_len = dec m.rxq_len } in
        let m' : Mailbox F = record m1 { rxq_fd = fd; is_in_rx = false } in
        (m', rw (read, took), record { count = ap dec s.count; ready = ready }, refl)

    pub open_fd-Signals :
        {n : ℕ} (m : Mailbox F) (f : F)
        → m.rxq_len ≡ pos n
        → api.readable f ≡ false
        → (m' : Mailbox F) × (open_fd api m (some f) ≡ (true, m'))
          × Signals n m'
          × (is_some m'.rxq_fd ≡ true)
    unfolding open_fd
    open_fd-Signals {n = zero} m f count blank =
        let blank_len : is_zero m.rxq_len ≡ true = ap is_zero count in
        (
          record m { rxq_fd = some f },
          rw blank_len,
          record {
            count = count;
            ready = λ g e. subst (λ x. api.readable x ≡ false) (some-injective _ _ e) blank;
          },
          refl,
        )
    open_fd-Signals {n = suc n} m f count blank =
        let (g, written, there) = laws.write_ok f blank in
        let more : is_zero m.rxq_len ≡ false = ap is_zero count in
        (
          record m { rxq_fd = some g },
          rw (more, written),
          record {
            count = count;
            ready = λ x e. subst (λ y. api.readable y ≡ true) (some-injective _ _ e) there;
          },
          refl,
        )
