-- ===== src/Rms/Finish/Freed.antt =====
-- The end of a job keeps the system ready for its queue.
use mathlib.Core.Path.{subst}
use cplusplus_projects.Common.{
  ℕ, suc, ◌≡◌, ◌≢◌, refl, sym, ap, ◌∙◌, true, false, List, [], ◌∷◌, ℤ, pos, ◌-ℤ◌, ◌≤ℤ◌, ◌==ℤ◌,
  if◌then◌else◌, ok, ◌>>=◌, >>=-eq-ok, ok_inj, arith, Bool-cases, inl, inr, All, length, -ℤ_parts,
}
use cplusplus_projects.Rms.State.{
  ServerState, Job, Server, Client, lookup_server, update_server, lookup_client, delete_client,
}
use cplusplus_projects.Rms.Numbered.{Numbered}
use cplusplus_projects.Rms.Connect.Load.{
  Load, load_of, loads, update_server_total, update_server-Numbered,
}
use cplusplus_projects.Rms.Connect.Capacity.{IsSound}
use cplusplus_projects.Rms.Estimate.Sure.{IsWide}
use cplusplus_projects.Rms.Dequeue.Ready.{IsWaiting}
use cplusplus_projects.Rms.Finish.{remove_jobs, release, rest_if_free}
use cplusplus_projects.Rms.Finish.Jobs.{HoldsOne, remove_jobs-sum, HoldsOne-sum}

-- Changes of client `a` do not matter to the jobs of others.
pub IsWaiting-others :
    (cs ds : List Client) (a : ℕ) (q : List Job)
    → ((b : ℕ) → a ≢ b → lookup_client ds b ≡ lookup_client cs b)
    → All (λ k. a ≢ k.client_address) q
    → All (IsWaiting cs) q
    → All (IsWaiting ds) q
IsWaiting-others cs ds a [] same ne w = tt
IsWaiting-others cs ds a (k ∷ q) same (ne, nes) ((c, e, none_yet, nodes, cores), w) = (
  (c, same k.client_address ne ∙ e, none_yet, nodes, cores),
  IsWaiting-others cs ds a q same nes w,
)

pub lookup_client-delete_ne :
    (cs : List Client) (a b : ℕ) → a ≢ b → lookup_client (delete_client cs a) b ≡ lookup_client cs b
unfolding lookup_client delete_client
lookup_client-delete_ne [] a b ne = refl
lookup_client-delete_ne (c ∷ cs) a b ne = ground (arith, lookup_client-delete_ne cs a b ne)

-- Two updates of one server are one.
update_server-twice :
    (f g : Server → Server) (xs ys : List Server) (n : ℤ)
    → ((s : Server) → (f s).id ≡ s.id)
    → update_server xs n f ≡ ok ys
    → update_server ys n g ≡ update_server xs n (λ s. g (f s))
unfolding update_server
update_server-twice f g [] ys n keep e = cc
update_server-twice f g (x ∷ xs) ys n keep e = elim (Bool-cases (pos x.id ==ℤ n)) [
  | inl here ↦
      let result : f x ∷ xs ≡ ys = ok_inj (rw here at e) in
      let here' : (pos (f x).id ==ℤ n) ≡ true = ap (λ i. pos i ==ℤ n) (keep x) ∙ here in
      rw (← result, here', here) refl
  | inr off ↦
      let (zs, u, v) = >>=-eq-ok (update_server xs n f) _ (rw off at e) in
      let result : x ∷ zs ≡ ys = ok_inj v in
      rw (← result, off)
        (ap (λ m. m >>= λ ws. ok (x ∷ ws)) (update_server-twice f g xs zs n keep u))
]

update_server-sound :
    (f : Server → Server) (xs ys : List Server) (n : ℤ) (s : Server)
    → lookup_server xs n ≡ ok s
    → update_server xs n f ≡ ok ys
    → All IsSound (loads xs)
    → IsSound (load_of (f s))
    → All IsSound (loads ys)
unfolding lookup_server update_server
update_server-sound f [] ys n s e u h k = cc
update_server-sound f (x ∷ xs) ys n s e u (h, hs) k = elim (Bool-cases (pos x.id ==ℤ n)) [
  | inl here ↦
      let same : x ≡ s = ok_inj (rw here at e) in
      let result : f x ∷ xs ≡ ys = ok_inj (rw here at u) in
      rw (← result) (subst (λ t. IsSound (load_of (f t))) (sym same) k, hs)
  | inr off ↦
      let (zs, u', v) = >>=-eq-ok (update_server xs n f) _ (rw off at u) in
      let result : x ∷ zs ≡ ys = ok_inj v in
      rw (← result) (h, update_server-sound f xs zs n s (rw off at e) u' hs k)
]

update_server-wide :
    (f : Server → Server) (xs ys : List Server) (n : ℤ)
    → ((s : Server) → (f s).num_cores ≡ s.num_cores)
    → update_server xs n f ≡ ok ys
    → (c : ℤ) → All (IsWide c) (loads xs)
    → All (IsWide c) (loads ys)
unfolding update_server
update_server-wide f [] ys n keep u c h = cc
update_server-wide f (x ∷ xs) ys n keep u c h = elim (Bool-cases (pos x.id ==ℤ n)) [
  | inl here ↦
      let result : f x ∷ xs ≡ ys = ok_inj (rw here at u) in rw (← result) (rw (keep x) h.0, h.1)
  | inr off ↦
      let (zs, u', v) = >>=-eq-ok (update_server xs n f) _ (rw off at u) in
      let result : x ∷ zs ≡ ys = ok_inj v in
      rw (← result) (h.0, update_server-wide f xs zs n keep u' c h.1)
]

pub length-update :
    (f : Server → Server) (xs ys : List Server) (n : ℤ)
    → update_server xs n f ≡ ok ys
    → length ys ≡ length xs
unfolding update_server
length-update f [] ys n u = cc
length-update f (x ∷ xs) ys n u = elim (Bool-cases (pos x.id ==ℤ n)) [
  | inl here ↦ let result : f x ∷ xs ≡ ys = ok_inj (rw here at u) in rw (← result) refl
  | inr off ↦
      let (zs, u', v) = >>=-eq-ok (update_server xs n f) _ (rw off at u) in
      let result : x ∷ zs ≡ ys = ok_inj v in rw (← result) (ap suc (length-update f xs zs n u'))
]

-- What the three writes of the handler do to a server.
abbrev pub drop_jobs : ℕ → Server → Server
drop_jobs a s = record s { jobs = remove_jobs a false s.jobs }

rest-id : (s : Server) → (rest_if_free s).id ≡ s.id
rest-id s = elim (Bool-cases (s.cores_in_use ==ℤ pos 0)) [
  | inl free ↦
      ap (λ b. (if b then record s { state = ServerState.idle; comp_time = pos 0 } else s).id) free
  | inr busy ↦
      ap (λ b. (if b then record s { state = ServerState.idle; comp_time = pos 0 } else s).id) busy
]

rest-load : (a : ℕ) (s : Server) → load_of (drop_jobs a (rest_if_free s)) ≡ load_of (drop_jobs a s)
rest-load a s = elim (Bool-cases (s.cores_in_use ==ℤ pos 0)) [
  | inl free ↦
      ap
        (λ b.
          load_of (
            drop_jobs a
              (if b then record s { state = ServerState.idle; comp_time = pos 0 } else s)))
        free
  | inr busy ↦
      ap
        (λ b.
          load_of (
            drop_jobs a
              (if b then record s { state = ServerState.idle; comp_time = pos 0 } else s)))
        busy
]

freed-IsSound :
    (a : ℕ) (c : Client) (s : Server)
    → HoldsOne a c.cores s.jobs
    → All (λ j. pos 0 ≤ℤ j.cores) s.jobs
    → IsSound (load_of s)
    → IsSound (load_of (drop_jobs a (rest_if_free (release c s))))
freed-IsSound a c s one nonneg sound =
    let (cores, most) = HoldsOne-sum a c.cores s.jobs one nonneg in
    let used : c.cores ≤ℤ s.cores_in_use = subst (λ n. c.cores ≤ℤ n) (sym sound.accounted) most in
    subst IsSound (sym (rest-load a (release c s))) (record {
      accounted =
          ap (λ n. n -ℤ c.cores) sound.accounted ∙ sym (remove_jobs-sum a c.cores s.jobs one);
      nonneg = omega (arith, used, -ℤ_parts s.cores_in_use c.cores);
      capacity = omega (arith, cores, sound.capacity, -ℤ_parts s.cores_in_use c.cores);
    })

All-IsSound-lookup :
    (xs : List Server) (n : ℤ) (s : Server)
    → lookup_server xs n ≡ ok s
    → All IsSound (loads xs)
    → IsSound (load_of s)
unfolding lookup_server
All-IsSound-lookup [] n s e h = cc
All-IsSound-lookup (x ∷ xs) n s e (h, hs) = elim (Bool-cases (pos x.id ==ℤ n)) [
  | inl here ↦ subst (λ t. IsSound (load_of t)) (ok_inj (rw here at e)) h
  | inr off ↦ All-IsSound-lookup xs n s (rw off at e) hs
]

-- The three writes succeed, and keep the servers in order and sound.
pub free_and_drop :
    (a : ℕ) (c : Client) (s : Server) (xs : List Server) (n : ℤ)
    → lookup_server xs n ≡ ok s
    → HoldsOne a c.cores s.jobs
    → All (λ j. pos 0 ≤ℤ j.cores) s.jobs
    → All IsSound (loads xs)
    → Numbered 0 xs
    → (ys zs ws : List Server) × (update_server xs n (release c) ≡ ok ys)
      × (update_server ys n rest_if_free ≡ ok zs)
      × (update_server zs n (drop_jobs a) ≡ ok ws)
      × All IsSound (loads ws)
      × Numbered 0 ws
      × (length ws ≡ length xs)
      × ((k : ℤ) → All (IsWide k) (loads xs) → All (IsWide k) (loads ws))
free_and_drop a c s xs n e one nonneg sound h =
    let (ys, u, e1) = update_server_total (release c) (λ t. refl) xs n s e in
    let (zs, u1, e2) = update_server_total rest_if_free rest-id ys n (release c s) e1 in
    let (ws, u2, e3) =
      update_server_total (drop_jobs a) (λ t. refl) zs n (rest_if_free (release c s)) e2 in
    let both : update_server xs n (λ t. rest_if_free (release c t)) ≡ ok zs =
      sym (update_server-twice (release c) rest_if_free xs ys n (λ t. refl) u) ∙ u1 in
    let all_three : update_server xs n (λ t. drop_jobs a (rest_if_free (release c t))) ≡ ok ws =
      sym (
        update_server-twice (λ t. rest_if_free (release c t)) (drop_jobs a) xs zs n
          (λ t. rest-id (release c t)) both)
      ∙ u2 in
    let each = All-IsSound-lookup xs n s e sound in
    (
      ys,
      zs,
      ws,
      u,
      u1,
      u2,
      update_server-sound (λ t. drop_jobs a (rest_if_free (release c t))) xs ws n s e all_three
          sound (freed-IsSound a c s one nonneg each),
      update_server-Numbered (λ t. drop_jobs a (rest_if_free (release c t)))
          (λ t. rest-id (release c t)) 0 xs ws n all_three h,
      length-update (λ t. drop_jobs a (rest_if_free (release c t))) xs ws n all_three,
      update_server-wide (λ t. drop_jobs a (rest_if_free (release c t))) xs ws n
          (λ t. ap (λ (l : Load). l.num_cores) (rest-load a (release c t))) all_three,
    )
