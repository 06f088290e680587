-- ===== src/Rms/Numbered.antt =====
-- The server list of SuperComRmsApp.cc, whose IDs `initialize` sets to 0, 1, 2, …: a lookup by
-- ID is then a lookup by position.
use cplusplus_projects.Common.{
  ℕ, zero, suc, ◌+◌, ◌<◌, ◌≡◌, List, [], ◌∷◌, some, arith, pos, ok, length, get_elem?, modify,
}
use cplusplus_projects.Rms.State.{Server, lookup_server, update_server}

abbrev pub Numbered : ℕ → List Server → Type 0
Numbered k [] = Unit
Numbered k (s ∷ xs) = (s.id ≡ k) × Numbered (suc k) xs

pub lookup_server-get :
    (k n i : ℕ) (xs : List Server) (s : Server)
    → Numbered k xs
    → n ≡ k + i
    → get_elem? xs i ≡ some s
    → lookup_server xs (pos n) ≡ ok s
unfolding lookup_server
lookup_server-get k n i [] s h e g = cc
lookup_server-get k n zero (x ∷ xs) s h e g = ground arith
lookup_server-get k n (suc i) (x ∷ xs) s h e g =
    ground (arith, lookup_server-get (suc k) n i xs s h.1 (omega arith) g)

pub update_server-modify :
    (k n i : ℕ) (xs : List Server) (f : Server → Server)
    → Numbered k xs
    → n ≡ k + i
    → i < length xs
    → update_server xs (pos n) f ≡ ok (modify xs i f)
unfolding update_server
update_server-modify k n i [] f h e l = elim l [ ]
update_server-modify k n zero (x ∷ xs) f h e l = ground arith
update_server-modify k n (suc i) (x ∷ xs) f h e l =
    ground (arith, update_server-modify (suc k) n i xs f h.1 (omega arith) (omega arith))

pub Numbered-modify :
    (k i : ℕ) (xs : List Server) (f : Server → Server)
    → ((s : Server) → (f s).id ≡ s.id)
    → Numbered k xs
    → Numbered k (modify xs i f)
Numbered-modify k i [] f keep h = tt
Numbered-modify k zero (x ∷ xs) f keep h = (ground (arith, keep x), h.1)
Numbered-modify k (suc i) (x ∷ xs) f keep h = (h.0, Numbered-modify (suc k) i xs f keep h.1)
