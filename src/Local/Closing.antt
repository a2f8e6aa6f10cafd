-- ===== src/Local/Closing.antt =====
-- local_exit of itc_local.c.
use itc_framework.Base.{
  ℕ, zero, suc, ◌+◌, ◌^◌, ◌≤◌, ◌≡◌, refl, ◌∙◌, ap, Bool, true, false, Option, some, arith, bit_or,
  is_some, test_eq, leb, inl, inr, if◌then◌else◌, Bool-cases, test_lt, test_ge,
}
use native.Mathlib.Decide.{ℕ_discrete}
use itc_framework.Memory.{Heap, Outcome, ended, raise, get_rc, itc_ok, itc_not_del_all_mbox}
use itc_framework.Local.{LocalInstance, no_instance, count_running, exit, find_localmbx_data}
use itc_framework.Local.Lookup.{find-own}
use itc_framework.Local.Table.{Boxes, Holds, vacant, queued, Ready}
use itc_framework.Local.Slot.{load_slot-ended, slot}

-- How many of the `n` mailboxes from `i` on are there.
unfoldable pub opened : Boxes → (n i : ℕ) → ℕ
opened bs zero i = 0
opened bs (suc n) i = let rest = opened bs n (i + 1) in if is_some (bs i) then rest + 1 else rest

is_some-Holds : {h : Heap} {r : Option _} {v : Option _} → Holds h r v → is_some r ≡ is_some v
is_some-Holds vacant = refl
is_some-Holds (queued is) = refl

counted : (total : ℕ) (h : Heap) → Outcome Bool
counted total h =
    if leb total 1
    then ended true h
    else ended false (record h { rc = bit_or h.rc itc_not_del_all_mbox })

module _ {h : Heap} {inst : LocalInstance} {process k : ℕ} {bs : Boxes}
    (r : Ready h inst process k bs) (rc : h.rc ≡ itc_ok) where
  -- The loop with `n` slots left, of which the next is `i`, after `running` open ones.
  count_running_lem :
      (n i running : ℕ)
      → i + n ≡ 2 ^ k
      → running ≤ 1
      → count_running inst n i running h ≡ counted (running + opened bs n i) h
  unfolding count_running get_rc raise counted opened
  count_running_lem zero i running whole few = ground arith
  count_running_lem (suc n) i running whole few =
      let (s, holds, here) = slot r i (omega arith) in
      let found =
        ap (λ m. find_localmbx_data inst (bit_or m i) h) r.laid.my
        ∙ find-own inst process k r.laid h i (omega arith) in
      let read = load_slot-ended h inst (some i) s here in
      let same = is_some-Holds holds in
      elim (Bool-cases (is_some (bs i))) [
        | inr gone ↦
            rw (found, test_eq rc, read, same, gone)
              (rw (test_ge {a = 1} {b = running} few)
                (count_running_lem n (i + 1) running (omega arith) few))
        | inl there ↦
            rw (found, test_eq rc, read, same, there)
              (elim (ℕ_discrete running 0) [
                | yes first ↦
                    let total : running + 1 + opened bs n (i + 1)
                        ≡ running + (opened bs n (i + 1) + 1) =
                      omega arith in
                    rw (test_ge {a = 1} {b = running + 1} (omega arith)) (
                      count_running_lem n (i + 1) (running + 1) (omega arith) (omega arith)
                      ∙ ap (λ t. counted t h) total)
                | no second ↦
                    let many : leb (running + (opened bs n (i + 1) + 1)) 1 ≡ false = ground arith in
                    rw (test_lt {a = 1} {b = running + 1} (omega arith), many) refl
              ])
      ]

-- local_exit, in a process that is set up and with no error pending, always ends and changes no
-- memory: with at most one mailbox there it forgets the whole table; with more it keeps everything
-- and raises `ITC_NOT_DEL_ALL_MBOX`.
pub exit_counts :
    {h : Heap} {inst : LocalInstance} {process k : ℕ} {bs : Boxes}
    → Ready h inst process k bs
    → h.rc ≡ itc_ok
    → exit inst h ≡ (
        if leb (opened bs (2 ^ k) 0) 1
        then ended no_instance h
        else ended inst (record h { rc = itc_not_del_all_mbox }))
unfolding exit counted
exit_counts {h} {inst} {process} {k} {bs} r rc =
    let up : is_some inst.localmbx_data ≡ true = let (t, at, _) = r.laid.table in rw at in
    let total : 0 + opened bs (2 ^ k) 0 ≡ opened bs (2 ^ k) 0 = omega arith in
    let loop =
      ap (λ n. count_running inst n 0 0 h) r.laid.count
      ∙ count_running_lem r rc (2 ^ k) 0 0 (omega arith) (omega arith)
      ∙ ap (λ t. counted t h) total in
    let raised : bit_or h.rc itc_not_del_all_mbox ≡ itc_not_del_all_mbox = rw rc in
    rw (up, loop, raised)
      (elim (Bool-cases (leb (opened bs (2 ^ k) 0) 1)) [
        | inl few ↦ rw few refl
        | inr many ↦ rw many refl
      ])
