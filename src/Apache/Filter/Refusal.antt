-- ===== src/Apache/Filter/Refusal.antt =====
-- mod_socket_handoff.c, `socket_handoff_output_filter`: responses that are not for the daemon.
use mod_socket_handoff.Base.{◌≡◌, false, none, [], ◌∷◌, ◌++◌}
use mod_socket_handoff.Apache.Config.{Config}
use mod_socket_handoff.Apache.Os.{Os}
use mod_socket_handoff.Apache.Filter.{
  Apr, State, handle, output_filter, find_header, handoff_header, pass_on,
}
use mod_socket_handoff.Apache.Filter.Ownership.{filter-handle}

module _ {Table : Type 0} (apr : Apr Table) where
  -- Without a handoff header the response goes on as it is.
  pub filter_pass_through :
      (os : Os) (conf : Config) (st : State Table)
      → find_header apr handoff_header st.request ≡ none
      → output_filter apr os conf st ≡ (
        apr.pass_brigade st.brigade,
        record st { installed = false; passed = st.passed ++ (st.brigade ∷ []) },
      )
  unfolding handle pass_on
  filter_pass_through os conf st e = rw (filter-handle apr os conf st, e)
