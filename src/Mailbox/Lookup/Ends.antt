-- ===== src/Mailbox/Lookup/Ends.antt =====
-- What itc_get_namespace_zz keeps for its next call, and what mailbox_destructor_at_thread_exit
-- leaves of a mailbox.
use itc_framework.Base.{
  ℕ, ◌≡◌, refl, ap, ◌∙◌, Bool, true, false, not, Option, none, some, List, ◌==◌, ℤ, length,
  if◌then◌else◌,
}
use mathlib.Core.Path.{subst}
use itc_framework.Message.{itc_no_mbox_id}
use itc_framework.Proto.{
  Name, Packet, notify_coord_add_mbox, notify_coord_rmv_mbox, locate_mbox_sync_request,
  locate_mbox_sync_reply, locate_mbox_from_itcgws_request, locate_mbox_from_itcgws_reply,
  get_namespace_request, get_namespace_reply, user_message,
}
use itc_framework.Mailbox.{EventFd, Transport, Mailbox, Process, my_mailbox}
use itc_framework.Mailbox.Calls.{itc_my_mbox_id, Wake, send, receive}
use itc_framework.Mailbox.Lookup.{
  timeout_of, body_of, envelope_of, itc_gateway_mbox_udp_name, locate_sync, keep_namespace,
  ask_namespace, get_namespace,
}

-- Where a namespace was returned, it is the one that is kept.
abbrev Kept : {Q : Type 0} → Option ((Option Name × Name) × Q) → Type 0
Kept none = Unit {0}
Kept (some ((none, ns), q)) = Unit {0}
Kept (some ((some n, ns), q)) = ns ≡ n

module _ {Q : Type 0} where
  Kept-if :
      (b : Bool) (x y : Option ((Option Name × Name) × Q))
      → Kept x
      → Kept y
      → Kept (if b then x else y)
  Kept-if true x y h k = h
  Kept-if false x y h k = k

  Kept-elim :
      {A : Type 0} (o : Option A) (z : Option ((Option Name × Name) × Q))
      (f : A → Option ((Option Name × Name) × Q))
      → Kept z
      → ((a : A) → Kept (f a))
      → Kept (elim o as (λ x. Option ((Option Name × Name) × Q)) [ none ↦ z | some a ↦ f a ])
  Kept-elim none z f h k = h
  Kept-elim (some a) z f h k = k a

module _ {F W : Type 0} (api : EventFd F) (ts : List (Transport W)) where
  keep_namespace-Kept :
      (namespace : Name) (o : Option Packet) (q : Process F W)
      → Kept (some (keep_namespace api ts namespace o, q))
  unfolding keep_namespace
  keep_namespace-Kept namespace none q = tt
  keep_namespace-Kept namespace (some (get_namespace_reply n)) q = refl
  keep_namespace-Kept namespace (some (locate_mbox_sync_reply id pid e n)) q = tt
  keep_namespace-Kept namespace (some (notify_coord_add_mbox id n)) q = tt
  keep_namespace-Kept namespace (some (notify_coord_rmv_mbox id n)) q = tt
  keep_namespace-Kept namespace (some (locate_mbox_sync_request f t o n)) q = tt
  keep_namespace-Kept namespace (some (locate_mbox_from_itcgws_request id n)) q = tt
  keep_namespace-Kept namespace (some (locate_mbox_from_itcgws_reply id n)) q = tt
  keep_namespace-Kept namespace (some (get_namespace_request id)) q = tt
  keep_namespace-Kept namespace (some (user_message m)) q = tt

  ask_namespace-Kept :
      (wakes : List (Wake F W)) (p : Process F W) (my gateway : ℕ) (timeout : ℤ) (namespace : Name)
      → Kept (ask_namespace api ts wakes p my gateway timeout namespace)
  unfolding ask_namespace
  ask_namespace-Kept wakes p my gateway timeout namespace =
      let s =
        send api ts p (some (envelope_of (get_namespace_request my))) gateway itc_my_mbox_id in
      Kept-if (not s.0) _ _ tt (
        Kept-elim (receive api ts (timeout_of timeout) wakes s.1) _ _ tt
          λ a. keep_namespace-Kept namespace (body_of a.0) a.1)

  get_namespace-Kept :
      (memory : Bool) (wakes wakes' : List (Wake F W)) (namespace : Name) (p : Process F W)
      (timeout : ℤ)
      → Kept (get_namespace api ts memory wakes wakes' namespace p timeout)
  unfolding get_namespace
  get_namespace-Kept memory wakes wakes' namespace p timeout = Kept-elim (my_mailbox p) _ _ tt λ x.
      Kept-if (not (length namespace == 0)) _ _ refl (
        Kept-if (not memory) _ _ tt (
          Kept-elim (locate_sync api ts memory wakes p timeout itc_gateway_mbox_udp_name true) _ _
            tt
            λ x'.
              Kept-if (x'.0.mbox_id == itc_no_mbox_id) _ _ tt
                (ask_namespace-Kept wakes' x'.1 x.1.mbox_id x'.0.mbox_id timeout namespace)))

  -- itc_get_namespace_zz that has returned true with a namespace that is not empty: while the
  -- thread has a mailbox, each later call returns true with the same namespace, and asks nobody:
  -- the process, with its transports, stays as it is.
  pub get_namespace_remembers :
      (memory memory' : Bool) (wakes wakes' later later' : List (Wake F W))
      (namespace n kept : Name) (p q : Process F W) (timeout timeout' : ℤ) (i : ℕ) (my : Mailbox F)
      → get_namespace api ts memory wakes wakes' namespace p timeout ≡ some ((some n, kept), q)
      → (length n == 0) ≡ false
      → my_mailbox q ≡ some (i, my)
      → get_namespace api ts memory' later later' kept q timeout' ≡ some ((some n, kept), q)
  unfolding get_namespace
  get_namespace_remembers memory memory' wakes wakes' later later' namespace n kept p q timeout
        timeout' i my first there mine =
      let same : kept ≡ n =
        subst Kept first (get_namespace-Kept memory wakes wakes' namespace p timeout) in
      let named : (length kept == 0) ≡ false = ap (λ k. length k == 0) same ∙ there in
      rw (mine, get_namespace, named) (ap (λ k. some ((some k, kept), q)) same)
