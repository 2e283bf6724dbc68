-- ===== src/Cache/Writeout.antt =====
-- `setWriteout` (omnetpp/dserver/diskcache/DiskCache.cc) chooses dirty pages to write back, from one
-- file on and around.
pub mod Parts
pub mod Laws
use pfssim.Base.{
  ℕ, ◌+◌, ◌-◌, ◌≤◌, ◌<◌, ◌≡◌, refl, ap, inl, inr, Bool, true, false, not, ◌&&◌, Option, none, some,
  List, [], ◌∷◌, ◌++◌, min, ltb, leb, ◌==◌, if◌then◌else◌, Bool-cases, arith,
}
use mathlib.Core.Option
use pfssim.Cache.{Flags, PageRange}
use pfssim.Cache.Ranges.{IsSorted, cached}

abbrev pub can_write : PageRange → Bool
can_write c = c.flags.dirty && not c.flags.writeback && not c.flags.locked && c.flags.count == 0

-- What is chosen, and how many pages are still wanted; `none` after the last one.
abbrev pub Chosen : Type 0
Chosen = List PageRange × Option ℕ

abbrev pub before_chosen : PageRange → Chosen → Chosen
before_chosen c (cs, n) = (c ∷ cs, n)

-- The loop over the table of one file.
pub choose : ℕ → List PageRange → Chosen
choose n [] = ([], some n)
choose n (c ∷ cs) =
    let rest = choose (if can_write c then n - (c.end - c.start) else n) cs in
    if can_write c
    then (if leb n (c.end - c.start)
        then (record c { end = c.start + n } ∷ [], none)
        else before_chosen c rest)
    else rest

abbrev pub File : Type 0
File = ℕ × List PageRange

abbrev pub after_file : Chosen → (ℕ → List PageRange) → List PageRange
after_file (xs, none) next = xs
after_file (xs, some n) next = xs ++ next n

pub choose_all : ℕ → List File → List PageRange
unfolding choose
choose_all n [] = []
choose_all n ((id, cs) ∷ fs) = after_file (choose n cs) (λ m. choose_all m fs)

-- The files from `fid` on, then those before it; `none` where it is not in `fileIDs`, and the source
-- loops for ever.
pub from_file : ℕ → List File → List File → Option (List File)
from_file fid before [] = none
from_file fid before ((id, cs) ∷ fs) =
    let rest = from_file fid (before ++ (id, cs) ∷ []) fs in
    if id == fid then some (((id, cs) ∷ fs) ++ before) else rest

pub set_writeout : ℕ → ℕ → List File → Option (List PageRange)
unfolding choose_all from_file
set_writeout fid n files = Option.map (choose_all n) (from_file fid [] files)
