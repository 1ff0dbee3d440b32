-- ===== src/Connector/States.antt =====
-- The states of a connection and the moves between them.
use deltaengine.Prelude.{List, [], ◌∷◌, ◌++◌, nat_eq, ◌≡◌, ◌⊎◌, inl, inr}
use deltaengine.Connector.{
  ConnectionState, disconnected, connecting, connected, subscribed, reconnecting,
}

-- The moves between states that the life cycle allows.
pub data Moves : ConnectionState → ConnectionState → Type 0 where
  connects : Moves connecting connected
  reconnects : Moves reconnecting connected
  subscribes : Moves connected subscribed
  fails : Moves connecting reconnecting
  fails_again : Moves reconnecting reconnecting
  breaks : Moves subscribed reconnecting
  gives_up : Moves connecting disconnected
  gives_up_retrying : Moves reconnecting disconnected
  ends : Moves subscribed disconnected

-- A history of states that begins with CONNECTING and makes only such moves, with its last state.
pub data IsHistory : List ConnectionState → ConnectionState → Type 0 where
  begins : IsHistory (connecting ∷ []) connecting
  moves :
      {h : List ConnectionState} {s s' : ConnectionState}
      → IsHistory h s
      → Moves s s'
      → IsHistory (h ++ s' ∷ []) s'

-- At the head of the loop the connector waits for a connection; behind a round that ends the loop
-- it may also be subscribed.
abbrev pub IsWaiting : ConnectionState → Type 0
IsWaiting s = (s ≡ connecting) ⊎ (s ≡ reconnecting)

abbrev pub MayEnd : ConnectionState → Type 0
MayEnd s = (s ≡ connecting) ⊎ (s ≡ reconnecting) ⊎ (s ≡ subscribed)

pub retry : {s : ConnectionState} → IsWaiting s → Moves s reconnecting
retry (inl e) = rw e fails
retry (inr e) = rw e fails_again

pub connect : {s : ConnectionState} → IsWaiting s → Moves s connected
connect (inl e) = rw e connects
connect (inr e) = rw e reconnects

pub waiting-MayEnd : {s : ConnectionState} → IsWaiting s → MayEnd s
waiting-MayEnd (inl e) = inl e
waiting-MayEnd (inr e) = inr (inl e)

pub give_up : {s : ConnectionState} → MayEnd s → Moves s disconnected
give_up (inl e) = rw e gives_up
give_up (inr (inl e)) = rw e gives_up_retrying
give_up (inr (inr e)) = rw e ends

pub not_disconnected : {s : ConnectionState} → MayEnd s → s ≡ disconnected → ⊥
not_disconnected (inl e) d = cc
not_disconnected (inr (inl e)) d = cc
not_disconnected (inr (inr e)) d = cc
