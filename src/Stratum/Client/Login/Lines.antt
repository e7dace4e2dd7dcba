-- ===== src/Stratum/Client/Login/Lines.antt =====
-- About the loop over lines in `runConnection` of src/stratum/client.cpp, when none of the lines grants
-- the login.
use bitcoin_miner.Base.{
  ℕ, zero, suc, Bool, true, false, ◌||◌, List, [], ◌∷◌, ◌++◌, ◌≡◌, refl, sym, subst, Option, none,
  some, Text, ℤ, if◌then◌else◌, All, All-append,
}
use bitcoin_miner.Util.Json.{Floats}
use bitcoin_miner.Stratum.Lines.{LineBuffer, append, next_line, drain_loop, drain}
use bitcoin_miner.Stratum.Messages.{Message, parse_message}
use bitcoin_miner.Stratum.Client.{Client, Output, handle_message}
use bitcoin_miner.Stratum.Client.Session.{
  Turn, quiet, lost, received, offered, Progress, take_message, no_line, take_lines,
}
use bitcoin_miner.Stratum.Client.Receipt.{handle_message-Keeps}
use bitcoin_miner.Stratum.Client.Login.{grants, IsLoggedOut, IsQuiet, handle_message-StaysOut}

-- The lines that the turns complete, in order, for as long as the loop can run.
unfoldable pub received_lines : LineBuffer → List Turn → List Text
received_lines lines [] = []
received_lines lines (lost ∷ turns) = []
received_lines lines (quiet ∷ turns) = received_lines lines turns
received_lines lines (offered share ∷ turns) = received_lines lines turns
received_lines lines (received bytes ∷ turns) =
    let filled = append lines bytes in
    let (texts, left) = drain filled in
    let later = received_lines left turns in if filled.overflowed then [] else texts ++ later

-- None of the lines grants the login.
abbrev pub Refuses : (floats : Floats) → ℤ → List Text → Type 0
Refuses floats id = All λ line. grants floats id (parse_message floats line) ≡ false

module _ (floats : Floats) (IsRequest : Text → Type 0) (id : ℤ) where
  open floats use {Double, of_int}

  abbrev pub Ungranted : List Text → Type 0
  Ungranted = Refuses floats id

  abbrev pub OutputsQuiet : List (Output Double) → Type 0
  OutputsQuiet = All (IsQuiet floats IsRequest)

  abbrev pub StaysRefused : Progress Double → Type 0
  StaysRefused p = IsLoggedOut floats id p.client × OutputsQuiet p.outputs × (p.reached ≡ false)

  or-false : (a b : Bool) → a ≡ false → b ≡ false → (a || b) ≡ false
  or-false a b e e' = rw (e, e') refl

  take_message-StaysRefused :
      (fuel : ℕ) (reached : Bool) (c : Client Double) (line : Text)
      → ((r : Bool) (d : Client Double)
          → IsLoggedOut floats id d
          → r ≡ false
          → Ungranted (drain_loop fuel d.lines).0
          → StaysRefused (take_lines floats fuel r d))
      → IsLoggedOut floats id c
      → reached ≡ false
      → grants floats id (parse_message floats line) ≡ false
      → Ungranted (drain_loop fuel c.lines).0
      → StaysRefused
          (take_message floats (take_lines floats fuel) reached c (parse_message floats line))
  unfolding take_message
  take_message-StaysRefused fuel reached c line k h unreached refused later =
      go (parse_message floats line).valid refl
    where
      m : Message Double
      m = parse_message floats line

      go :
          (b : Bool)
          → m.valid ≡ b
          → StaysRefused (elim b [
            | false ↦ take_lines floats fuel reached c
            | true ↦
                let (next, outs) = handle_message floats m c in
                let more = take_lines floats fuel (reached || next.is_authorized) next in
                record more { outputs = outs ++ more.outputs }
          ])
      go false e = k reached c h unreached later
      go true e =
          let (out, told) = handle_message-StaysOut floats IsRequest id m c h e refused in
          let next = (handle_message floats m c).0 in
          let (rest, more, still) =
            k (reached || next.is_authorized) next out
              (or-false reached next.is_authorized unreached out.2)
              (subst (λ l. Ungranted (drain_loop fuel l).0) (sym (handle_message-Keeps floats m c))
                later) in
          (rest, All-append (IsQuiet floats IsRequest) _ _ told more, still)

  pub take_lines-StaysRefused :
      (fuel : ℕ) (reached : Bool) (c : Client Double)
      → IsLoggedOut floats id c
      → reached ≡ false
      → Ungranted (drain_loop fuel c.lines).0
      → StaysRefused (take_lines floats fuel reached c)
  unfolding take_lines drain_loop
  take_lines-StaysRefused zero reached c h unreached refused = (h, tt, unreached)
  take_lines-StaysRefused (suc fuel) reached c h unreached refused =
      go (take_lines-StaysRefused fuel) (next_line c.lines) refused
    where
      go :
          ((r : Bool) (d : Client Double)
            → IsLoggedOut floats id d
            → r ≡ false
            → Ungranted (drain_loop fuel d.lines).0
            → StaysRefused (take_lines floats fuel r d))
          → (o : Option (List ℕ × LineBuffer))
          → (let drained : List (List ℕ) × LineBuffer = elim o [
            | none ↦ ([], c.lines)
            | some (line, after) ↦ let (more, final) = drain_loop fuel after in (line ∷ more, final)
          ] in
              Ungranted drained.0)
          → StaysRefused (elim o [
            | none ↦ no_line floats reached c
            | some s ↦
                take_message floats
                  (take_lines floats fuel)
                  reached
                  (record c { lines = s.1 })
                  (parse_message floats s.0)
          ])
      go k none refused = (h, tt, unreached)
      go k (some (line, after)) (first, later) =
          take_message-StaysRefused fuel reached (record c { lines = after }) line k h unreached
            first later
