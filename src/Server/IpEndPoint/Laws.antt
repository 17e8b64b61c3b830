-- ===== src/Server/IpEndPoint/Laws.antt =====
-- What is written into an end point is what is read from it, as far as the buffer goes.
use mod_server.Prelude.{
  ℕ, zero, suc, ◌+◌, ◌-◌, ◌≤◌, ◌<◌, ◌≡◌, ◌≢◌, ◌↔◌, refl, ap, ◌∙◌, true, [], ◌∷◌, ◌++◌, arith, Bytes,
  length, take, drop, All, length-append, length-take, length-drop,
}
use mod_server.Prelude.Fault.{ok, fault, failed_assert}
use mod_server.Server.IpEndPoint.{
  IpEndPoint, ip_size, c_string, snprintf, end_point_of_c_string, set_ip, ip, is_valid, inaddr_none,
}

-- A text with no NUL in it.
abbrev pub IsText : Bytes → Type 0
IsText = All (λ c. c ≢ 0)

c_string-append : (t rest : Bytes) → IsText t → c_string (t ++ 0 ∷ rest) ≡ t
unfolding c_string
c_string-append [] rest p = refl
c_string-append (c ∷ t) rest p = ground (arith, c_string-append t rest p.1)

c_string_text : (t : Bytes) → IsText t → c_string t ≡ t
unfolding c_string
c_string_text [] p = refl
c_string_text (c ∷ t) p = ground (arith, c_string_text t p.1)

take-IsText : (n : ℕ) (t : Bytes) → IsText t → IsText (take n t)
take-IsText zero t p = tt
take-IsText (suc n) [] p = tt
take-IsText (suc n) (c ∷ t) p = (p.0, take-IsText n t p.1)

take_all : (n : ℕ) (t : Bytes) → length t ≤ n → take n t ≡ t
take_all zero [] h = refl
take_all zero (c ∷ t) h = absurd (omega arith)
take_all (suc n) [] h = refl
take_all (suc n) (c ∷ t) h = ap (◌∷◌ c) (take_all n t (omega arith))

-- What `snprintf` leaves in the buffer, as a C string and as memory.
c_string-snprintf : (buf s : Bytes) → IsText s → c_string (snprintf buf s) ≡ take (length buf - 1) s
unfolding snprintf
c_string-snprintf buf s p = c_string-append (take (length buf - 1) s) _ (take-IsText _ s p)

length-snprintf : (buf s : Bytes) → 0 < length buf → length (snprintf buf s) ≡ length buf
unfolding snprintf
length-snprintf buf s h =
    let t = take (length buf - 1) s in
    omega (
      arith,
      length-take (length buf - 1) s,
      length-append t (0 ∷ drop (length t + 1) buf),
      length-drop (length t + 1) buf,
    )

-- In a buffer of 20 bytes, a text of 1 to 18 bytes with no NUL is read back as it was set; the port is
-- kept, and so is the size of the buffer.
pub ip-set_ip :
    (ep : IpEndPoint) (s : Bytes)
    → length ep.m_ip ≡ ip_size
    → IsText s
    → 0 < length s
    → length s < ip_size - 1
    → (ep' : IpEndPoint) × (set_ip ep s ≡ ok ep')
      × (ip ep' ≡ s)
      × (ep'.m_port ≡ ep.m_port)
      × (length ep'.m_ip ≡ ip_size)
unfolding set_ip ip
ip-set_ip ep s full p some_text short =
    let plain = c_string_text s p in
    (
      record ep { m_ip = snprintf ep.m_ip (c_string s) },
      ground arith,
      rw plain (c_string-snprintf ep.m_ip s p ∙ take_all _ s (omega arith)),
      refl,
      length-snprintf ep.m_ip _ (omega arith) ∙ full,
    )

-- Any other length fails the assertion, 19 bytes too, though the buffer has room for them.
pub set_ip-assert :
    (ep : IpEndPoint) (s : Bytes)
    → (set_ip ep s ≡ fault failed_assert) ↔ ¬ ((0 < length s) × (length s < ip_size - 1))
unfolding set_ip
set_ip-assert ep s = (λ e h. ground arith, λ h. ground arith)

-- An end point made of a C string, with no NUL, in a buffer of 20 bytes holds its first 19 bytes, and
-- the buffer keeps its size.
pub ip-end_point_of_c_string :
    (raw s : Bytes) (port : ℕ)
    → length raw ≡ ip_size
    → IsText s
    → (ip (end_point_of_c_string raw s port) ≡ take 19 s)
      × (length (end_point_of_c_string raw s port).m_ip ≡ ip_size)
unfolding ip end_point_of_c_string
ip-end_point_of_c_string raw s port full p =
    let room : length raw - 1 ≡ 19 = omega arith in
    (
      c_string-snprintf raw s p ∙ ap (λ (n : ℕ). take n s) room,
      length-snprintf raw s (omega arith) ∙ full,
    )

-- An end point is valid exactly if `inet_addr` takes its text and its port is not 0.
pub is_valid_iff :
    (inet_addr : Bytes → ℕ) (ep : IpEndPoint)
    → (is_valid inet_addr ep ≡ true) ↔ ((inet_addr (ip ep) ≢ inaddr_none) × (ep.m_port ≢ 0))
unfolding is_valid
is_valid_iff inet_addr ep = (λ e. ground arith, λ h. ground arith)
