-- ===== src/Sv2/Connection.antt =====
-- src/sv2_session.cpp: the constructor, `send`, and `Session::receive` as a whole, over the classes that
-- Sv2.Noise and Sv2.Session model. The frames that a handler gives to `send` are encrypted and written right
-- after it. An exception ends the connection, so an error carries no state.
pub mod Chunks
mod Runs
use supryolo.Base.{
  ℕ, ◌+◌, List, [], ◌∷◌, ◌++◌, Bool, true, false, not, length, take, drop, leb, ltb, ◌==◌,
  if◌then◌else◌, Result, ok, err, ◌>>=◌, ◌>>◌, require,
}
use supryolo.Sv2.Types.{Frame}
use supryolo.Sv2.Decode.{decode}
use supryolo.Sv2.Session.{Session, init, handle, start}
use supryolo.Sv2.Session.Settle.{Event}
use supryolo.Sv2.Noise.{Noise, Cipher, Handshake, begin_noise, finish, encode}
use supryolo.Sv2.Noise

-- The members of `Session` that Sv2.Session leaves out, and what was given to `write`, oldest first.
pub record Connection (S : Type 0) : Type 0 where
  pub noise : Noise S
  pub handshake : List ℕ
  pub session : Session
  pub written : List (List ℕ)

module _ {S : Type 0} where
  -- The constructor; `first` is the message that the library begins with.
  unfoldable pub connect : S → List ℕ → Session → Connection S
  connect state first s = record {
    noise = begin_noise state;
    handshake = [];
    session = s;
    written = first ∷ [];
  }

  -- What an operation of `Noise` leaves.
  abbrev pub kept : {A : Type 0} → Result A × Noise S → Result (A × Noise S)
  kept (ok a, n) = ok (a, n)
  kept (err why, n) = err why

  module _ (cipher : Cipher S) (library : Handshake S) where
    -- `write(noise.encode(f))` for each frame.
    unfoldable pub write_all :
        List Frame → Noise S → List (List ℕ) → Result (Noise S × List (List ℕ))
    write_all [] n written = ok (n, written)
    write_all (f ∷ fs) n written = do
      r ← kept (encode cipher f n)
      write_all fs r.1 (written ++ (r.0 ∷ []))

    unfoldable pub flush : Session → Connection S → Result (Connection S)
    flush s c = do
      r ← write_all s.sent c.noise c.written
      ok (record c { noise = r.0; session = record s { sent = [] }; written = r.1 })

    -- The body of the loop over frames.
    unfoldable pub on_frame : Frame → Connection S → Result (Connection S × List Event)
    on_frame f c = do m ← decode f; r ← handle m c.session; c' ← flush r.0 c; ok (c', r.1)

    unfoldable pub on_frames : List Frame → Connection S → Result (Connection S × List Event)
    on_frames [] c = ok (c, [])
    on_frames (f ∷ fs) c = do
      first ← on_frame f c
      rest ← on_frames fs first.0
      ok (rest.0, first.1 ++ rest.1)

    -- In a later phase.
    unfoldable pub receive_frames : List ℕ → Connection S → Result (Connection S × List Event)
    receive_frames bytes c = do
      r ← kept (supryolo.Sv2.Noise.receive cipher bytes c.noise)
      on_frames r.0 (record c { noise = r.1 })

    -- With the whole answer to the handshake.
    unfoldable pub finish_handshake : List ℕ → Connection S → Result (Connection S × List Event)
    finish_handshake bytes c = do
      r ← kept (finish library (take 234 bytes) c.noise)
      s ← start c.session
      c' ← flush s (record c { noise = r.1; handshake = [] })
      receive_frames (drop 234 bytes) c'

    -- In phase 0, with all the bytes so far.
    unfoldable pub handshaking : List ℕ → Connection S → Result (Connection S × List Event)
    handshaking bytes c =
        let done = finish_handshake bytes c in
        if ltb 65536 (length bytes)
        then err "SV2 handshake buffer limit"
        else if ltb (length bytes) 234
        then ok (record c { handshake = bytes }, [])
        else done

    unfoldable pub receive : List ℕ → Connection S → Result (Connection S × List Event)
    receive bytes c =
        let early = handshaking (c.handshake ++ bytes) c in
        let late = receive_frames bytes c in if c.session.phase == 0 then early else late
