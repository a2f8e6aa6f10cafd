-- ===== src/Gateway/Udp/Broadcast.antt =====
-- A gateway's greeting is read by the other gateways as it was written.
use itc_framework.Base.{
  ℕ, ◌<◌, ◌^◌, ◌≡◌, refl, ◌≢◌, false, some, [], ◌∷◌, ◌++◌, arith, length, take, take-all,
  length-append,
}
use itc_framework.Proto.{Name}
use itc_framework.Gateway.Text.{
  codes, skip_spaces, contains, expect, read_until-append, read_hu-print_hu, print_hu,
  length-print_hu,
}
use itc_framework.Gateway.Udp.{
  greeting_front, greeting_middle, create_broadcast_message, scan_greeting,
}

expect_front : (s : Name) → expect greeting_front (greeting_front ++ s) ≡ some s
unfolding expect skip_spaces
expect_front s = refl

-- The text behind a namespace, without its first character.
abbrev behind_bracket : Name
behind_bracket = codes " listening on tcp://"

expect_middle : (s : Name) → expect greeting_middle (greeting_middle ++ s) ≡ some s
unfolding expect skip_spaces
expect_middle s = refl

expect_colon : (s : Name) → expect (58 ∷ []) (58 ∷ s) ≡ some s
unfolding expect skip_spaces
expect_colon s = refl

-- A greeting that create_broadcast_message writes, for a namespace and an IP address that fit the
-- reader's arrays, are not empty and do not hold the character that ends them: its namespace,
-- address and port are read back.
pub scan_greeting-create_broadcast_message :
    (namespace ip : Name) (port : ℕ)
    → contains 62 namespace ≡ false
    → namespace ≢ []
    → length namespace < 255
    → contains 58 ip ≡ false
    → ip ≢ []
    → length ip < 25
    → port < 2 ^ 16
    → scan_greeting (create_broadcast_message namespace ip port)
      ≡ some (record { namespace = namespace; tcp_ip = ip; tcp_port = port })
unfolding scan_greeting create_broadcast_message
scan_greeting-create_broadcast_message namespace ip port free named fits free_ip some_ip fits_ip
      small =
    let s5 = print_hu port (47 ∷ []) in
    let s3 = ip ++ (58 ∷ s5) in
    let s1 = namespace ++ (greeting_middle ++ s3) in
    let whole : take 509 (greeting_front ++ s1) ≡ greeting_front ++ s1 =
      take-all 509 (greeting_front ++ s1) (
        omega (
          arith,
          length-append namespace (greeting_middle ++ s3),
          length-append ip (58 ∷ s5),
          length-print_hu port (47 ∷ []),
        )) in
    rw
      (
        whole,
        scan_greeting,
        expect_front s1,
        read_until-append 62 255 namespace (behind_bracket ++ s3) free named fits,
        expect_middle s3,
        read_until-append 58 25 ip s5 free_ip some_ip fits_ip,
        expect_colon s5,
        read_hu-print_hu port [] small,
      )
      refl
