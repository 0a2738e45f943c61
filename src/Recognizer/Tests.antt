-- ===== src/Recognizer/Tests.antt =====
-- The machine code of the two patterns, and each theorem at a small program.
use nes2snes.Common.{
  ℕ, ◌+◌, ◌≡◌, refl, true, false, ok, err, none, some, Option, List, [], ◌∷◌, ◌++◌, length, get_or,
  replicate, map, All,
}
use nes2snes.Common.{
  length-append, length-replicate, arith, Bytes, AreBytes, All-replicate, All-append, IsByte, ℤ,
  pos, if◌then◌else◌, ◌==◌,
}
use nes2snes.Opcodes.{ops}
use nes2snes.Opcodes.Encode.{encode, same_name, same_mode}
use nes2snes.Recognizer.{
  dispatch_pattern, sizes_differ, changed_call, no_symbol, matches, Site, plan, redirect_all,
}
use nes2snes.Recognizer.Match.{assemble}
use nes2snes.Recognizer.Polling.{polling_matches, polling_code}
use nes2snes.Recognizer.Find.{Apart, IsFound, plan-Apart}
use nes2snes.Recognizer.Redirect.{IsReady, IsAway, IsRedirected, redirect_all_lem}

abbrev dispatch_code : Bytes
dispatch_code =
    0x0a ∷ 0x84 ∷ 3 ∷ 0xa8 ∷ 0xc8 ∷ 0x68 ∷ 0x85 ∷ 0 ∷ 0x68 ∷ 0x85 ∷ 1 ∷ 0xb1 ∷ 0 ∷ 0x85 ∷ 2 ∷ 0xc8
    ∷ 0xb1 ∷ 0 ∷ 0xa4 ∷ 3 ∷ 0x85 ∷ 3 ∷ 0x6c ∷ 2 ∷ 0 ∷ []

assembled : assemble dispatch_pattern ≡ dispatch_code
unfolding assemble encode
assembled = refl

abbrev marks : List ℤ
marks =
    map (λ n. pos n)
      (1 ∷ 1 ∷ 0 ∷ 1 ∷ 1 ∷ 1 ∷ 1 ∷ 0 ∷ 1 ∷ 1 ∷ 0 ∷ 1 ∷ 0 ∷ 1 ∷ 0 ∷ 1 ∷ 1 ∷ 0 ∷ 1 ∷ 0 ∷ 1 ∷ 0 ∷ 1 ∷ 0
        ∷ 0 ∷ [])

matched :
    (matches dispatch_pattern dispatch_code marks 0 ≡ ok true)
    × (matches dispatch_pattern dispatch_code marks 1 ≡ ok false)
    × (matches dispatch_pattern dispatch_code [] 0 ≡ err sizes_differ)
unfolding matches ops same_name same_mode
matched = (refl, refl, refl)

code-AreBytes : AreBytes dispatch_code
code-AreBytes = omega arith

abbrev name : ℕ → ℕ
name n = n

padded : {A : Type 0} (xs ys : List A) (n : ℕ) (a : A) → List A
padded xs ys n a = xs ++ (replicate n a ++ ys)

length-padded :
    {A : Type 0} (xs ys : List A) (n : ℕ) (a : A)
    → length (padded xs ys n a) ≡ length xs + (n + length ys)
unfolding padded
length-padded xs ys n a = omega (
  arith,
  length-append xs (replicate n a ++ ys),
  length-append (replicate n a) ys,
  length-replicate n a,
)

padded-AreBytes : (xs ys : Bytes) (n : ℕ) → AreBytes xs → AreBytes ys → AreBytes (padded xs ys n 0)
unfolding padded
padded-AreBytes xs ys n p q =
    All-append IsByte xs (replicate n 0 ++ ys) p
      (All-append IsByte (replicate n 0) ys (All-replicate IsByte n 0 (omega arith)) q)

-- A program of 256 KiB that begins with a call and ends with the routine.
abbrev program : Bytes
program = padded (0x20 ∷ 0xe7 ∷ 0xff ∷ []) dispatch_code 262116 0

abbrev classes : List ℤ
classes = padded (pos 1 ∷ pos 0 ∷ pos 0 ∷ []) marks 262116 (pos 0)

plan-Apart_example :
    (sites : List (Site name)) × (plan name dispatch_pattern program classes ≡ ok sites)
    × Apart name 0 sites
    × All (IsFound name dispatch_pattern program classes) sites
plan-Apart_example =
    plan-Apart name dispatch_pattern program classes
      (padded-AreBytes (0x20 ∷ 0xe7 ∷ 0xff ∷ []) dispatch_code 262116 (omega arith) code-AreBytes)
      (length-padded (0x20 ∷ 0xe7 ∷ 0xff ∷ []) dispatch_code 262116 0)
      (length-padded (pos 1 ∷ pos 0 ∷ pos 0 ∷ []) marks 262116 (pos 0))

-- Two calls and what lies around them.
abbrev calls : Bytes
calls = 0xea ∷ 0x20 ∷ 0x34 ∷ 0xe2 ∷ 0x20 ∷ 0x00 ∷ 0xe1 ∷ 0x60 ∷ []

abbrev sites : List (Site name)
sites =
    record { prg_offset = 1; original_target = 0xe234; name = 0xe234 }
    ∷ record { prg_offset = 4; original_target = 0xe100; name = 0xe100 }
    ∷ []

abbrev linked : ℕ → Option ℕ
linked n = if n == 0xe234 then some 0x1010 else if n == 0xe100 then some 0x17ff else none

redirected_code :
    (redirect_all name linked calls sites
      ≡ ok (0xea ∷ 0x20 ∷ 0x10 ∷ 0x10 ∷ 0x20 ∷ 0xff ∷ 0x17 ∷ 0x60 ∷ []))
    × (redirect_all name linked (0xea ∷ calls) sites ≡ err changed_call)
    × (redirect_all name (λ n. none) calls sites ≡ err no_symbol)
unfolding redirect_all
redirected_code = (refl, refl, refl)

sites-IsReady : All (IsReady name linked calls) sites
sites-IsReady = (
  record {
    address = 0x1010;
    linked = refl;
    reserved = omega arith;
    inside = omega arith;
    small = omega arith;
    unchanged = (refl, refl, refl);
  },
  (
    record {
      address = 0x17ff;
      linked = refl;
      reserved = omega arith;
      inside = omega arith;
      small = omega arith;
      unchanged = (refl, refl, refl);
    },
    tt,
  ),
)

redirect_all_lem_example :
    (out : Bytes) × (redirect_all name linked calls sites ≡ ok out)
    × (length out ≡ length calls)
    × ((j : ℕ) → All (IsAway name linked j) sites → get_or out j 0 ≡ get_or calls j 0)
    × All (IsRedirected name linked out) sites
redirect_all_lem_example =
    redirect_all_lem name linked sites calls 0 (omega arith, (omega arith, tt)) sites-IsReady

abbrev polling_marks : List ℤ
polling_marks =
    map (λ n. pos n)
      (1 ∷ 0 ∷ 1 ∷ 0 ∷ 0 ∷ 1 ∷ 1 ∷ 0 ∷ 0 ∷ 1 ∷ 0 ∷ 1 ∷ 0 ∷ 0 ∷ 1 ∷ 0 ∷ 1 ∷ 1 ∷ 0 ∷ 1 ∷ 1 ∷ 0 ∷ 1 ∷ 0
        ∷ 0 ∷ 1 ∷ 0 ∷ 1 ∷ 1 ∷ 0 ∷ 1 ∷ 1 ∷ 0 ∷ 1 ∷ 1 ∷ 0 ∷ 1 ∷ [])

polled : polling_matches polling_code polling_marks 0 ≡ ok true
unfolding polling_matches ops same_name same_mode
polled = refl
