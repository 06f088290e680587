-- ===== src/Rms/Connect/Clients.antt =====
-- The client list: what an update through `lookupClient` does to later lookups.
use cplusplus_projects.Common.{
  ℕ, ◌≡◌, refl, ap, map, List, [], ◌∷◌, ◌==◌, ok, arith, Bool-cases, inl, inr, ◌≢◌, ok_inj,
  >>=-eq-ok,
}
use cplusplus_projects.Rms.State.{Client, lookup_client, update_client}

-- An update of a client that is there succeeds, and the client is then the updated one.
pub update_client_lem :
    (cs : List Client) (a : ℕ) (f : Client → Client) (c : Client)
    → ((d : Client) → (f d).client_address ≡ d.client_address)
    → lookup_client cs a ≡ ok c
    → (ds : List Client) × (update_client cs a f ≡ ok ds) × (lookup_client ds a ≡ ok (f c))
unfolding lookup_client update_client
update_client_lem [] a f c keep h = cc
update_client_lem (x ∷ cs) a f c keep h = elim (Bool-cases (x.client_address == a)) [
  | inl here ↦ (f x ∷ cs, rw here refl, ground (arith, keep x))
  | inr on ↦
      let (ds, e, g) = update_client_lem cs a f c keep (rw on at h) in
      (x ∷ ds, rw (on, e) refl, rw on g)
]

-- Clients of other addresses are as before.
pub lookup_client-update_ne :
    (cs ds : List Client) (a b : ℕ) (f : Client → Client)
    → ((d : Client) → (f d).client_address ≡ d.client_address)
    → update_client cs a f ≡ ok ds
    → a ≢ b
    → lookup_client ds b ≡ lookup_client cs b
unfolding lookup_client update_client
lookup_client-update_ne [] ds a b f keep e ne = cc
lookup_client-update_ne (x ∷ cs) ds a b f keep e ne = elim (Bool-cases (x.client_address == a)) [
  | inl here ↦
      let result : f x ∷ cs ≡ ds = ok_inj (rw here at e) in rw (← result) (ground (arith, keep x))
  | inr on ↦
      let (es, u, v) = >>=-eq-ok (update_client cs a f) _ (rw on at e) in
      let result : x ∷ es ≡ ds = ok_inj v in
      rw (← result) (ground (arith, lookup_client-update_ne cs es a b f keep u ne))
]

-- The addresses of the registered clients.
abbrev pub addresses : List Client → List ℕ
addresses = map (λ c. c.client_address)

pub addresses-update :
    (cs ds : List Client) (a : ℕ) (f : Client → Client)
    → ((d : Client) → (f d).client_address ≡ d.client_address)
    → update_client cs a f ≡ ok ds
    → addresses ds ≡ addresses cs
unfolding update_client
addresses-update [] ds a f keep e = cc
addresses-update (x ∷ cs) ds a f keep e = elim (Bool-cases (x.client_address == a)) [
  | inl here ↦
      let result : f x ∷ cs ≡ ds = ok_inj (rw here at e) in
      rw (← result) (ap (λ b. b ∷ addresses cs) (keep x))
  | inr on ↦
      let (es, u, v) = >>=-eq-ok (update_client cs a f) _ (rw on at e) in
      let result : x ∷ es ≡ ds = ok_inj v in
      rw (← result) (ap (◌∷◌ x.client_address) (addresses-update cs es a f keep u))
]

-- A client is registered exactly when its address is among them.
pub lookup_client-address :
    (cs ds : List Client) (a : ℕ) (c : Client)
    → addresses ds ≡ addresses cs
    → lookup_client cs a ≡ ok c
    → (d : Client) × (lookup_client ds a ≡ ok d)
unfolding lookup_client
lookup_client-address [] ds a c e h = cc
lookup_client-address (x ∷ cs) [] a c e h = absurd cc
lookup_client-address (x ∷ cs) (y ∷ ds) a c e h =
    let head : y.client_address ≡ x.client_address = cc in
    let tail : addresses ds ≡ addresses cs = cc in
    elim (Bool-cases (x.client_address == a)) [
      | inl here ↦ (y, rw (head, here) refl)
      | inr on ↦
          let (d, g) = lookup_client-address cs ds a c tail (rw on at h) in (d, rw (head, on) g)
    ]
