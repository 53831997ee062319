-- ===== src/Manager/Published.antt =====
-- The status message between the manager and a node: what its two `int8` fields keep.
use packml_ros.Base.{◌≡◌, refl, sym, ◌∙◌, ◌↔◌, ℤ, true, [], ◌∷◌, ◌++◌}
use packml_ros.Common.{state_val, mode_val}
use packml_ros.Common.Casts.{int8}
use packml_ros.Common.Fits.{fits, fits-int8, int8_iff}
use packml_ros.Messages.{Status}
use packml_ros.NodeInterface.{Node, on_status_changed}
use packml_ros.NodeInterface.Handshake.{on_status_changed-follows}
use packml_ros.Manager.{Manager, publish_status}

-- A number that was cast on its way.
cast_iff : (x z : ℤ) → x ≡ int8 z → (x ≡ z) ↔ (fits z ≡ true)
cast_iff x z e = (λ q. (int8_iff z).0 (sym e ∙ q), λ h. e ∙ (int8_iff z).1 h)

-- `publish_status` publishes one status, whose two numbers lie between -128 and 127. A node that
-- receives it, whatever it held, has the number of the manager's state exactly if that number lies
-- between these bounds, and the same holds for the mode.
pub publish_status-fits :
    (g : Manager) (n : Node)
    → (status : Status) × ((publish_status g).published ≡ g.published ++ status ∷ [])
      × (fits status.state_val ≡ true)
      × (fits status.mode_val ≡ true)
      × ((state_val (on_status_changed status n).current_state ≡ state_val g.current_state)
          ↔ (fits (state_val g.current_state) ≡ true))
      × ((mode_val (on_status_changed status n).current_mode ≡ mode_val g.current_mode)
          ↔ (fits (mode_val g.current_mode) ≡ true))
unfolding publish_status
publish_status-fits g n =
    let status : Status = record {
      state_val = int8 (state_val g.current_state);
      mode_val = int8 (mode_val g.current_mode);
    } in
    let follows = on_status_changed-follows status n in
    (
      status,
      refl,
      fits-int8 (state_val g.current_state),
      fits-int8 (mode_val g.current_mode),
      cast_iff _ (state_val g.current_state) follows.0,
      cast_iff _ (mode_val g.current_mode) follows.1,
    )
