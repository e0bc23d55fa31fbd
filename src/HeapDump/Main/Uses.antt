-- ===== src/HeapDump/Main/Uses.antt =====
-- Which of the calls in `main` of hw6-jli230-main/C/main.c use memory that is not theirs.
use Prim.Native.String.{String}
use mathlib.Core.List.{append_assoc}
use cs361_projects.Prelude.{
  ℕ, ◌≡◌, refl, ap, ◌∙◌, false, List, [], ◌∷◌, ◌++◌, arith, ◌==◌, if◌then◌else◌,
}
use cs361_projects.Prelude.Links.{erase, has, has-erase, ◌∈◌, ◌∉◌}
use cs361_projects.HeapDump.Main
use cs361_projects.HeapDump.Main.{
  Allocator, Call, puts, allocates, releases, reads, fills, trims, shows_pointer, shows, M,
}

-- The calls that use a block which is not in use: not handed out, or freed.
abbrev pub misuses : List ℕ → List Call → List Call
misuses live [] = []
misuses live (puts s ∷ cs) = misuses live cs
misuses live (allocates n p ∷ cs) = misuses (p ∷ live) cs
misuses live (releases p ∷ cs) =
    let rest = misuses (erase p live) cs in if has p live then rest else releases p ∷ rest
misuses live (reads p ∷ cs) =
    let rest = misuses live cs in if has p live then rest else reads p ∷ rest
misuses live (fills p byte n ∷ cs) =
    let rest = misuses live cs in if has p live then rest else fills p byte n ∷ rest
misuses live (trims ∷ cs) = misuses live cs
misuses live (shows_pointer p ∷ cs) = misuses live cs
misuses live (shows r ∷ cs) = misuses live cs

module _ (a : Allocator) where
  -- What a program comes to from a heap.
  abbrev pub heap_of : {A : Type 0} → M a A → a.Heap → a.Heap
  heap_of m h = (m h).1

  -- The misuses among the calls `cs`, from one heap to another, are `bad`, whatever follows.
  pub record Flow (h : a.Heap) (cs : List Call) (h' : a.Heap) (bad : List Call) : Type 0 where
    pub run : (rest : List Call) → misuses (a.live h) (cs ++ rest) ≡ bad ++ misuses (a.live h') rest

  abbrev pub Uses : {A : Type 0} → M a A → a.Heap → List Call → Type 0
  Uses m h bad = Flow h (m h).2 (heap_of m h) bad

  abbrev pub Keeps : a.Heap → a.Heap → Type 0
  Keeps h h' = (p : ℕ) → p ∈ a.live h → p ∈ a.live h'

  -- One behind the other, where the first has none.
  pub Flow-append :
      {h h₁ h₂ : a.Heap} {cs cs' bad : List Call}
      → Flow h cs h₁ []
      → Flow h₁ cs' h₂ bad
      → Flow h (cs ++ cs') h₂ bad
  Flow-append {h} {cs} {cs'} u v = record {
    run = λ rest.
        ap (misuses (a.live h)) (append_assoc cs cs' rest) ∙ u.run (cs' ++ rest) ∙ v.run rest;
  }

  -- The other way round.
  pub Flow-then :
      {h h₁ h₂ : a.Heap} {cs cs' bad : List Call}
      → Flow h cs h₁ bad
      → Flow h₁ cs' h₂ []
      → Flow h (cs ++ cs') h₂ bad
  Flow-then {h} {cs} {cs'} {bad} u v = record {
    run = λ rest.
        ap (misuses (a.live h)) (append_assoc cs cs' rest)
        ∙ u.run (cs' ++ rest)
        ∙ ap (λ z. bad ++ z) (v.run rest);
  }

  pub Flow-end : {h : a.Heap} → Flow h [] h []
  Flow-end = record { run = λ rest. refl }

  -- The one that is not in order.
  pub read-Uses : (p : ℕ) (h : a.Heap) → p ∉ a.live h → Uses (Main.read a p) h (reads p ∷ [])
  unfolding Main.read
  read-Uses p h out = record { run = λ rest. rw out }

  pub alloc-Uses : (n : ℕ) (h : a.Heap) → Uses (Main.alloc a n) h []
  unfolding Main.alloc
  alloc-Uses n h = record { run = λ rest. rw (a.live-malloc n h) }

  pub alloc-Keeps : (n : ℕ) (h : a.Heap) → Keeps h (heap_of (Main.alloc a n) h)
  unfolding Main.alloc
  alloc-Keeps n h p on = rw (a.live-malloc n h) (ground arith)

  pub alloc_lem :
      (n : ℕ) (h : a.Heap)
      → ((Main.alloc a n h).0 ∉ a.live h)
        × ((Main.alloc a n h).0 ∈ a.live (heap_of (Main.alloc a n) h))
  unfolding Main.alloc
  alloc_lem n h = (a.malloc_fresh n h, rw (a.live-malloc n h) (ground arith))

  pub release-Uses : (p : ℕ) (h : a.Heap) → p ∈ a.live h → Uses (Main.release a p) h []
  unfolding Main.release
  release-Uses p h on = record { run = λ rest. rw (on, a.live-free p h on) }

  pub has-release :
      (q p : ℕ) (h : a.Heap)
      → p ∈ a.live h
      → has q (a.live (heap_of (Main.release a p) h)) ≡ (if q == p then false else has q (a.live h))
  unfolding Main.release
  has-release q p h on = rw (a.live-free p h on) (has-erase q p (a.live h) (a.live-Distinct h))

  -- A step that frees nothing and uses what is its own.
  pub record Quiet (m : M a (Unit {0})) (h : a.Heap) : Type 0 where
    pub uses : Uses m h []
    pub same : a.live (heap_of m h) ≡ a.live h

  pub say-Quiet : (s : String) (h : a.Heap) → Quiet (Main.say a s) h
  unfolding Main.say
  say-Quiet s h = record { uses = record { run = λ rest. refl }; same = refl }

  pub memset-Quiet : (p byte n : ℕ) (h : a.Heap) → p ∈ a.live h → Quiet (Main.memset a p byte n) h
  unfolding Main.memset
  memset-Quiet p byte n h on = record {
    uses = record { run = λ rest. rw (on, a.live-fill p byte n h on) };
    same = a.live-fill p byte n h on;
  }

  pub trim-Quiet : (h : a.Heap) → Quiet (Main.malloc_trim a) h
  unfolding Main.malloc_trim
  trim-Quiet h = record { uses = record { run = λ rest. rw (a.live-trim h) }; same = a.live-trim h }

  pub show_heap-Quiet : (k bottom : ℕ) (h : a.Heap) → Quiet (Main.show_heap a k bottom) h
  unfolding Main.show_heap
  show_heap-Quiet k bottom h = record { uses = record { run = λ rest. refl }; same = refl }

  pub show_freelist-Quiet : (k hdr : ℕ) (h : a.Heap) → Quiet (Main.show_freelist a k hdr) h
  unfolding Main.show_freelist
  show_freelist-Quiet k hdr h = record { uses = record { run = λ rest. refl }; same = refl }

  pub show_pointer-Quiet : (p : ℕ) (h : a.Heap) → Quiet (Main.show_pointer a p) h
  unfolding Main.show_pointer
  show_pointer-Quiet p h = record { uses = record { run = λ rest. refl }; same = refl }
