-- ===== src/Plugins/Lifetime/Balance.antt =====
-- Every library that the loader opens is closed once (PluginLoader of server_plugin/plugin_loader.cpp).
use mathlib.Core.List.Perm
use mathlib.Core.List.{Perm, perm_append_singleton}
use mod_server.Prelude.{
  ℕ, ◌<◌, ◌≡◌, ◌≢◌, refl, ap, ◌∙◌, Option, none, some, List, [], ◌∷◌, ◌++◌, append-nil,
  append_assoc, arith, All, All-append,
}
use mod_server.Base.DynamicLib.Shared.{DlCall, opened, closed, Libs, put}
use mod_server.Plugins.Lifetime.{PluginLoader}

abbrev pub Apart : List ℕ → Type 0
Apart [] = Unit
Apart (p ∷ ps) = All (λ q. q ≢ p) ps × Apart ps

pub All-both : (P : ℕ → Type 0) (xs ys : List ℕ) → All P (xs ++ ys) → All P xs × All P ys
All-both P [] ys a = (tt, a)
All-both P (x ∷ xs) ys (px, a) = let (b, c) = All-both P xs ys a in ((px, b), c)

pub Apart-concat : (n : ℕ) (ps : List ℕ) → Apart ps → All (λ p. p < n) ps → Apart (ps ++ n ∷ [])
Apart-concat n [] d b = (tt, tt)
Apart-concat n (p ∷ ps) (out, d) (small, b) =
    (All-append (λ q. q ≢ p) ps (n ∷ []) out (λ e. absurd (omega arith), tt), Apart-concat n ps d b)

pub below-ne : (n : ℕ) (ps : List ℕ) → All (λ p. p < n) ps → All (λ p. p ≢ n) ps
below-ne n [] a = tt
below-ne n (p ∷ ps) (small, a) = (λ e. absurd (omega arith), below-ne n ps a)

module _ {Handle : Type 0} where
  -- The handles that `dlopen` gave, and those that `dlclose` was given.
  abbrev pub opened_of : List (DlCall Handle) → List Handle
  opened_of [] = []
  opened_of (opened h ∷ calls) = h ∷ opened_of calls
  opened_of (closed h ∷ calls) = opened_of calls

  abbrev pub closed_of : List (DlCall Handle) → List Handle
  closed_of [] = []
  closed_of (opened h ∷ calls) = closed_of calls
  closed_of (closed h ∷ calls) = h ∷ closed_of calls

  opened_of-append :
      (xs ys : List (DlCall Handle)) → opened_of (xs ++ ys) ≡ opened_of xs ++ opened_of ys
  opened_of-append [] ys = refl
  opened_of-append (opened h ∷ xs) ys = ap (◌∷◌ h) (opened_of-append xs ys)
  opened_of-append (closed h ∷ xs) ys = opened_of-append xs ys

  closed_of-append :
      (xs ys : List (DlCall Handle)) → closed_of (xs ++ ys) ≡ closed_of xs ++ closed_of ys
  closed_of-append [] ys = refl
  closed_of-append (opened h ∷ xs) ys = closed_of-append xs ys
  closed_of-append (closed h ∷ xs) ys = ap (◌∷◌ h) (closed_of-append xs ys)

  -- What was opened is what was closed and what is still held.
  abbrev pub Balanced : List (DlCall Handle) → List Handle → Type 0
  Balanced calls held = Perm (opened_of calls) (closed_of calls ++ held)

  pub Balanced-open :
      (h : Handle) (calls : List (DlCall Handle)) (held : List Handle)
      → Balanced calls held
      → Balanced (calls ++ opened h ∷ []) (held ++ h ∷ [])
  Balanced-open h calls held b =
      rw
        (
          opened_of-append calls (opened h ∷ []),
          closed_of-append calls (opened h ∷ []),
          append-nil (closed_of calls),
          ← append_assoc (closed_of calls) held (h ∷ []),
        )
        (Perm.append_right (h ∷ []) b)

  pub Balanced-close :
      (h : Handle) (calls : List (DlCall Handle)) (held : List Handle)
      → Balanced calls (h ∷ held)
      → Balanced (calls ++ closed h ∷ []) held
  Balanced-close h calls held b =
      rw
        (
          opened_of-append calls (closed h ∷ []),
          closed_of-append calls (closed h ∷ []),
          append-nil (opened_of calls),
          append_assoc (closed_of calls) (h ∷ []) held,
        )
        b

  -- The last one that was opened is closed.
  pub Balanced-last :
      (h : Handle) (calls : List (DlCall Handle)) (held : List Handle)
      → Balanced calls (held ++ h ∷ [])
      → Balanced (calls ++ closed h ∷ []) held
  Balanced-last h calls held b =
      Balanced-close h calls held
        (Perm.trans b (Perm.append_left (closed_of calls) (perm_append_singleton h held)))

  -- Each pointer is alive, with one owner, and has its handle.
  abbrev pub Held : (ℕ → Option (Handle × ℕ)) → List ℕ → List Handle → Type 0
  Held objects [] [] = Unit
  Held objects (p ∷ ps) (h ∷ hs) = (objects p ≡ some (h, 1)) × Held objects ps hs
  Held objects _ _ = ⊥

  -- What the loader's state is between two files: its plugins own all the libraries that are alive, one
  -- each, and what was opened is what was closed and what they own.
  pub record IsBalanced (loader : PluginLoader Handle) : Type 0 where
    pub handles : List Handle
    pub below : All (λ p. p < loader.libs.next) loader.m_plugins
    pub apart : Apart loader.m_plugins
    pub held : Held loader.libs.objects loader.m_plugins handles
    pub only : (q : ℕ) → All (λ p. p ≢ q) loader.m_plugins → loader.libs.objects q ≡ none
    pub balance : Balanced loader.libs.calls handles

  pub Held-same :
      (objects objects' : ℕ → Option (Handle × ℕ)) (ps : List ℕ) (hs : List Handle)
      → All (λ p. objects' p ≡ objects p) ps
      → Held objects ps hs
      → Held objects' ps hs
  Held-same objects objects' [] [] same held = held
  Held-same objects objects' [] (h ∷ hs) same held = absurd held
  Held-same objects objects' (p ∷ ps) [] same held = absurd held
  Held-same objects objects' (p ∷ ps) (h ∷ hs) same (e, held) =
      (same.0 ∙ e, Held-same objects objects' ps hs same.1 held)

  pub Held-concat :
      (objects : ℕ → Option (Handle × ℕ)) (n : ℕ) (h : Handle) (ps : List ℕ) (hs : List Handle)
      → Held objects ps hs
      → objects n ≡ some (h, 1)
      → Held objects (ps ++ n ∷ []) (hs ++ h ∷ [])
  Held-concat objects n h [] [] held e = (e, tt)
  Held-concat objects n h [] (k ∷ hs) held e = absurd held
  Held-concat objects n h (p ∷ ps) [] held e = absurd held
  Held-concat objects n h (p ∷ ps) (k ∷ hs) (f, held) e = (f, Held-concat objects n h ps hs held e)

  -- A change at a pointer that is not listed changes nothing for the listed ones.
  pub put-others :
      (p : ℕ) (x : Option (Handle × ℕ)) (libs : Libs Handle) (ps : List ℕ)
      → All (λ q. q ≢ p) ps
      → All (λ q. (put p x libs).objects q ≡ libs.objects q) ps
  put-others p x libs [] a = tt
  put-others p x libs (q ∷ ps) (ne, a) = (ground arith, put-others p x libs ps a)
