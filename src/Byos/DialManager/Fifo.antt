-- ===== src/Byos/DialManager/Fifo.antt =====
-- What the dialing code relies on in cynosure's `Queue`: it is first in, first out.
use strata_p2p.Common.{◌≡◌, none, some, List, [], ◌∷◌, refl}
use strata_p2p.Ids.{Multiaddr}
use strata_p2p.Byos.DialManager.{Queue}

pub record IsFifo {Q : Type 0} (q : Queue Q) : Type 0 where
  pub contents : Q → List Multiaddr
  pub contents-from_iter : (xs : List Multiaddr) → contents (q.from_iter xs) ≡ xs
  pub pop-empty : (e : Q) → contents e ≡ [] → (q.pop_front e).0 ≡ none
  pub pop-front :
      (e : Q) (x : Multiaddr) (xs : List Multiaddr)
      → contents e ≡ x ∷ xs
      → ((q.pop_front e).0 ≡ some x) × (contents ((q.pop_front e).1) ≡ xs)

-- A list is such a queue.
abbrev pub list_queue : Queue (List Multiaddr)
list_queue = record {
  from_iter = λ xs. xs;
  pop_front = λ xs. elim xs [ [] ↦ (none, []) | x ∷ rest ↦ (some x, rest) ];
}

pub list_queue-IsFifo : IsFifo list_queue
list_queue-IsFifo = record {
  contents = λ xs. xs;
  contents-from_iter = λ xs. refl;
  pop-empty = λ e empty. rw empty refl;
  pop-front = λ e x xs front. rw front (refl, refl);
}
