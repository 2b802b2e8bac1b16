-- ===== src/Tui/Model/Newest.antt =====
-- What `accept` takes over of a snapshot that arrives.
use relvo.Base.{◌≡◌, refl, ◌∙◌, inl, inr, Bool, true, false, arith, ltb, if◌then◌else◌, Bool-cases}
use relvo.Data.{Snapshot}
use relvo.Tui.Model.{Screen, Model, clamp, follow_table, reset_view, follow_pending, accept}

follow_table-snap :
    (screen : Screen) (s : Snapshot) (m : Model) → (follow_table screen s m).snap ≡ m.snap
unfolding follow_table
follow_table-snap screen s m = ground arith

reset_view-snap : (m : Model) → (reset_view m).snap ≡ m.snap
unfolding reset_view
reset_view-snap m = ground arith

follow_pending-snap : (s : Snapshot) (m : Model) → (follow_pending s m).snap ≡ m.snap
unfolding follow_pending
follow_pending-snap s m = ground arith

-- The stages of `accept`, whichever of them are taken, keep the snapshot that was set.
stages-snap :
    (screen : Screen) (s : Snapshot) (moved changed : Bool) (a : Model)
    → let b = if moved then follow_table screen s a else a in
      (clamp screen (follow_pending s (if changed then reset_view b else b))).snap ≡ a.snap
unfolding clamp
stages-snap screen s true true a =
    follow_pending-snap s _ ∙ reset_view-snap _ ∙ follow_table-snap screen s a
stages-snap screen s true false a = follow_pending-snap s _ ∙ follow_table-snap screen s a
stages-snap screen s false true a = follow_pending-snap s _ ∙ reset_view-snap a
stages-snap screen s false false a = follow_pending-snap s a

-- Of the snapshot on display and one that arrives, `accept` displays the one of the later revision,
-- and the one that arrives if they are of the same.
pub accept-snap :
    (screen : Screen) (s : Snapshot) (m : Model)
    → (accept screen s m).snap ≡ (if ltb s.revision m.snap.revision then m.snap else s)
unfolding accept
accept-snap screen s m = elim (Bool-cases (ltb s.revision m.snap.revision)) [
  | inl e ↦ rw (e, accept) refl
  | inr e ↦ rw (e, accept) (stages-snap screen s _ _ _)
]
