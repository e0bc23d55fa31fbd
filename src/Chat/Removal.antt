-- ===== src/Chat/Removal.antt =====
-- `remove_inactives` of hw8-jli230-main/C/hw8a.c.
use cs361_projects.Prelude.{
  ℕ, zero, suc, ◌+◌, ◌<◌, ◌≡◌, refl, ap, ◌∙◌, inl, inr, Bool, true, false, ◌&&◌, ◌||◌, none, some,
  List, [], ◌∷◌, arith, ◌==◌, if◌then◌else◌, Bool-cases, length,
}
use cs361_projects.Prelude.Int.{
  ℤ, pos, ◌+ℤ◌, ◌-ℤ◌, pos_part, neg_part, +ℤ_parts, -ℤ_parts, eq_of_parts,
}
use cs361_projects.Prelude.Links.{Ptr, update}
use cs361_projects.Chat.{
  set_next, Client, Heap, Pool, Run, ok, is_inactive, drop_head, drop_rest, remove_inactives, ◌>>=◌,
}

-- A client and its address. (Its link is read from the heap.)
abbrev pub Clients : Type 0
Clients = List (ℕ × Client)

abbrev pub at : ℕ → Clients → Bool
at b [] = false
at b ((a, c) ∷ xs) = (b == a) || at b xs

abbrev pub Apart : Clients → Type 0
Apart [] = Unit
Apart ((a, c) ∷ xs) = (at a xs ≡ false) × Apart xs

-- From the pointer the links lead through the clients to NULL.
abbrev pub Nodes : Heap → Ptr → Clients → Type 0
Nodes h p [] = p ≡ none
Nodes h p ((a, c) ∷ xs) =
    (p ≡ some a) × (q : Ptr) × (h a ≡ some (record c { next = q })) × Nodes h q xs

unfoldable pub survivors : Clients → Clients
survivors [] = []
survivors ((a, c) ∷ xs) = if is_inactive c.status then survivors xs else (a, c) ∷ survivors xs

unfoldable pub gone : Clients → ℕ
gone [] = 0
gone ((a, c) ∷ xs) = if is_inactive c.status then gone xs + 1 else gone xs

-- The address of an inactive client.
unfoldable pub leaves : ℕ → Clients → Bool
leaves b [] = false
leaves b ((a, c) ∷ xs) = ((b == a) && is_inactive c.status) || leaves b xs

Nodes-frame :
    (h h' : Heap) (p : Ptr) (xs : Clients)
    → Nodes h p xs
    → ((b : ℕ) → at b xs ≡ true → h' b ≡ h b)
    → Nodes h' p xs
Nodes-frame h h' p [] n same = n
Nodes-frame h h' p ((a, c) ∷ xs) (e, q, here, rest) same =
    (e, q, rw (same a (ground arith)) here, Nodes-frame h h' q xs rest λ b m. same b (ground arith))

leaves-at : (b : ℕ) (xs : Clients) → leaves b xs ≡ true → at b xs ≡ true
unfolding leaves
leaves-at b [] h = cc h
leaves-at b ((a, c) ∷ xs) h = ground (arith, leaves-at b xs)

-- What a pool `r` owes to a pool `p`, for the clients `xs`: as many fewer are counted as were
-- inactive, their memory is given back, and memory that is not theirs is as before.
pub record Swept (p r : Pool) (xs : Clients) : Type 0 where
  pub counted : p.actives ≡ r.actives +ℤ pos (gone xs)
  pub freed : (b : ℕ) → leaves b xs ≡ true → r.heap b ≡ none

count_one : (a b : ℤ) (n : ℕ) → a -ℤ pos 1 ≡ b +ℤ pos n → a ≡ b +ℤ pos (n + 1)
count_one a b n h = eq_of_parts a (b +ℤ pos (n + 1)) (
    omega (
      arith,
      +ℤ_parts b (pos (n + 1)),
      +ℤ_parts b (pos n),
      -ℤ_parts a (pos 1),
      ap pos_part h,
      ap neg_part h,
    ))

plus_none : (a : ℤ) → a ≡ a +ℤ pos 0
plus_none a = eq_of_parts a (a +ℤ pos 0) (omega (arith, +ℤ_parts a (pos 0)))

-- The outcome of the second loop behind the client `cx` at `x`.
Shortened : ℕ → Client → ℕ → Ptr → Clients → Pool → Type 0
Shortened x cx k q xs p =
    (r : Pool) × (drop_rest k (some x) q p ≡ ok r)
    × (r.head ≡ p.head)
    × Nodes r.heap (some x) ((x, cx) ∷ survivors xs)
    × Swept p r xs
    × ((b : ℕ) → at b ((x, cx) ∷ xs) ≡ false → r.heap b ≡ p.heap b)

-- The client behind `x` is inactive, and the loop stays at `x`.
Shortened-gone :
    (x : ℕ) (cx : Client) (k y : ℕ) (cy : Client) (q : Ptr) (ys : Clients) (p : Pool)
    → p.heap x ≡ some (record cx { next = some y })
    → p.heap y ≡ some (record cy { next = q })
    → Apart ((x, cx) ∷ (y, cy) ∷ ys)
    → is_inactive cy.status ≡ true
    → Shortened x cx k q ys (record p {
      heap = update (update p.heap x (some (record cx { next = q }))) y none;
      actives = p.actives -ℤ pos 1;
    })
    → Shortened x cx (suc k) (some y) ((y, cy) ∷ ys) p
unfolding Shortened drop_rest survivors gone leaves
Shortened-gone x cx k y cy q ys p here there d dead (r, done, head, nodes, swept, same) = (
  r,
  rw (drop_rest, there, dead, set_next, here) done,
  head,
  rw dead nodes,
  record {
    counted = rw dead (count_one p.actives r.actives (gone ys) swept.counted);
    freed = λ b l. ground (arith, swept.freed b, same y);
  },
  λ b out. ground (arith, same b),
)

-- The client behind `x` is active, and the loop goes on from it.
Shortened-kept :
    (x : ℕ) (cx : Client) (k y : ℕ) (cy : Client) (q : Ptr) (ys : Clients) (p : Pool)
    → p.heap x ≡ some (record cx { next = some y })
    → p.heap y ≡ some (record cy { next = q })
    → Apart ((x, cx) ∷ (y, cy) ∷ ys)
    → is_inactive cy.status ≡ false
    → Shortened y cy k q ys p
    → Shortened x cx (suc k) (some y) ((y, cy) ∷ ys) p
unfolding Shortened drop_rest survivors gone leaves
Shortened-kept x cx k y cy q ys p here there d alive (r, done, head, nodes, swept, same) = (
  r,
  rw (drop_rest, there, alive) done,
  head,
  rw alive (refl, some y, same x (ground arith) ∙ here, nodes),
  record { counted = rw alive swept.counted; freed = λ b l. ground (arith, swept.freed b) },
  λ b out. same b (ground arith),
)

none_gone : (p : Pool) → Swept p p []
unfolding gone leaves
none_gone p = record { counted = plus_none p.actives; freed = λ b l. cc l }

drop_rest-survivors :
    (x : ℕ) (cx : Client) (k : ℕ) (q : Ptr) (xs : Clients) (p : Pool)
    → p.heap x ≡ some (record cx { next = q })
    → Nodes p.heap q xs
    → Apart ((x, cx) ∷ xs)
    → length xs < k
    → Shortened x cx k q xs p
unfolding Shortened drop_rest survivors
drop_rest-survivors x cx zero q xs p here n d lt = elim lt [ ]
drop_rest-survivors x cx (suc k) q [] p here n d lt =
    (p, rw (n, drop_rest) refl, refl, (refl, q, here, n), none_gone p, λ b out. refl)
drop_rest-survivors x cx (suc k) q ((y, cy) ∷ ys) p here (e, q', there, n) d lt =
    elim (Bool-cases (is_inactive cy.status)) [
      | inl dead ↦
          let freed : Heap = update (update p.heap x (some (record cx { next = q' }))) y none in
          rw e (
            Shortened-gone x cx k y cy q' ys p (rw e at here) there d dead (
              drop_rest-survivors x cx k q' ys
                (record p { heap = freed; actives = p.actives -ℤ pos 1 }) (ground arith)
                (Nodes-frame p.heap freed q' ys n λ b m. ground arith) (ground arith)
                (omega arith)))
      | inr alive ↦ rw e (
          Shortened-kept x cx k y cy q' ys p (rw e at here) there d alive
            (drop_rest-survivors y cy k q' ys p there n d.1 (omega arith)))
    ]

-- The outcome of both loops.
abbrev pub Cleaned : Run Pool → Clients → Pool → Type 0
Cleaned run xs p =
    (r : Pool) × (run ≡ ok r)
    × Nodes r.heap r.head (survivors xs)
    × Swept p r xs
    × ((b : ℕ) → at b xs ≡ false → r.heap b ≡ p.heap b)

both_loops : ℕ → ℕ → Pool → Run Pool
both_loops j k p = drop_head j p >>= λ q. drop_rest k none q.head q

head-gone :
    (j k x : ℕ) (cx : Client) (q : Ptr) (xs : Clients) (p : Pool)
    → p.head ≡ some x
    → p.heap x ≡ some (record cx { next = q })
    → Apart ((x, cx) ∷ xs)
    → is_inactive cx.status ≡ true
    → Cleaned
        (both_loops j k
          (record { heap = update p.heap x none; head = q; actives = p.actives -ℤ pos 1 }))
        xs
        (record { heap = update p.heap x none; head = q; actives = p.actives -ℤ pos 1 })
    → Cleaned (both_loops (suc j) k p) ((x, cx) ∷ xs) p
unfolding both_loops drop_head survivors gone leaves
head-gone j k x cx q xs p first here d dead (r, done, nodes, swept, same) = (
  r,
  rw (drop_head, first, here, dead) done,
  rw dead nodes,
  record {
    counted = rw dead (count_one p.actives r.actives (gone xs) swept.counted);
    freed = λ b l. ground (arith, swept.freed b, same x);
  },
  λ b out. ground (arith, same b),
)

head-kept :
    (j k x : ℕ) (cx : Client) (q : Ptr) (xs : Clients) (p : Pool)
    → p.head ≡ some x
    → p.heap x ≡ some (record cx { next = q })
    → is_inactive cx.status ≡ false
    → Shortened x cx k q xs p
    → Cleaned (both_loops (suc j) (suc k) p) ((x, cx) ∷ xs) p
unfolding both_loops drop_head drop_rest survivors gone leaves Shortened
head-kept j k x cx q xs p first here alive (r, done, head, nodes, swept, same) = (
  r,
  rw (drop_head, first, here, alive) (rw (first, drop_rest, here, alive) done),
  rw (head, alive, first) nodes,
  record { counted = rw alive swept.counted; freed = λ b l. ground (arith, swept.freed b) },
  same,
)

empty_loops : (j k : ℕ) (p : Pool) → p.head ≡ none → both_loops (suc j) (suc k) p ≡ ok p
unfolding both_loops drop_head drop_rest
empty_loops j k p e = ground arith

both_loops-survivors :
    (j k : ℕ) (xs : Clients) (p : Pool)
    → Nodes p.heap p.head xs
    → Apart xs
    → length xs < j
    → length xs < k
    → Cleaned (both_loops j k p) xs p
unfolding both_loops survivors
both_loops-survivors zero k xs p n d lt lt' = elim lt [ ]
both_loops-survivors (suc j) zero xs p n d lt lt' = elim lt' [ ]
both_loops-survivors (suc j) (suc k) [] p n d lt lt' =
    (p, empty_loops j k p n, n, none_gone p, λ b out. refl)
both_loops-survivors (suc j) (suc k) ((x, cx) ∷ xs) p (e, q, here, n) d lt lt' =
    elim (Bool-cases (is_inactive cx.status)) [
      | inl dead ↦
          let freed : Heap = update p.heap x none in
          head-gone j (suc k) x cx q xs p e here d dead (
            both_loops-survivors j (suc k) xs
              (record { heap = freed; head = q; actives = p.actives -ℤ pos 1 })
              (Nodes-frame p.heap freed q xs n λ b m. ground arith) d.1 (omega arith) (omega arith))
      | inr alive ↦
          head-kept j k x cx q xs p e here alive
            (drop_rest-survivors x cx k q xs p here n d (omega arith))
    ]

-- For clients at different addresses on the list, and more fuel than clients, the loops end
-- with no access to memory that is not allocated. What is left on the list are the clients
-- that were active, in their order and unchanged but for their links; as many fewer are
-- counted as were inactive; the memory of those is free, and no memory but the clients' is
-- touched.
pub remove_inactives-survivors :
    (k : ℕ) (xs : Clients) (p : Pool)
    → Nodes p.heap p.head xs
    → Apart xs
    → length xs < k
    → Cleaned (remove_inactives k p) xs p
unfolding remove_inactives both_loops survivors
remove_inactives-survivors k [] p n d lt = (p, ground arith, n, none_gone p, λ b out. refl)
remove_inactives-survivors k ((x, cx) ∷ xs) p n d lt =
    let (r, done, nodes, swept, same) = both_loops-survivors k k ((x, cx) ∷ xs) p n d lt lt in
    (r, rw (remove_inactives, n.0) done, nodes, swept, same)
