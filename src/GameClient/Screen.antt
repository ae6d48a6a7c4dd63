-- ===== src/GameClient/Screen.antt =====
-- The texts of src/client/game_client.cpp.
use cpptcpmultiplayer.Prelude.{
  ℕ, Bool, true, false, not, none, some, List, [], ◌∷◌, ◌++◌, ◌==◌, if◌then◌else◌, is_nil,
}
use cpptcpmultiplayer.Prelude.Text.{codes, to_string, int_to_string}
use cpptcpmultiplayer.Prelude.Maps.{find}
use cpptcpmultiplayer.PlayerState.{PlayerState, no_role, liar, guesser, unnamed}
use cpptcpmultiplayer.Serialization.Role.{RoleAssignment}
use cpptcpmultiplayer.Serialization.Vote.{VoteResult}

-- `std::endl`.
abbrev pub endl : List ℕ
endl = 10 ∷ []

abbrev pub double_rule : List ℕ
double_rule = codes "============================================================" ++ endl

abbrev pub single_rule : List ℕ
single_rule = codes "------------------------------------------------------------" ++ endl

-- An id in brackets.
unfoldable pub bracketed : ℕ → List ℕ
bracketed id = codes "[" ++ (to_string id ++ codes "]")

unfoldable pub status_entry : ℕ → PlayerState → List ℕ
unfolding bracketed
status_entry id state =
    bracketed id
    ++ (codes " "
        ++ (state.username ++ (codes " (" ++ (int_to_string state.score ++ codes " pts)"))))

unfoldable pub score_entry : PlayerState → List ℕ
score_entry state = state.username ++ (codes "=" ++ int_to_string state.score)

-- The loops with `first`: a separator before each entry but the first.
unfoldable pub entries :
    List ℕ → (ℕ → PlayerState → List ℕ) → Bool → List (ℕ × PlayerState) → List ℕ
entries separator entry first [] = []
entries separator entry first ((id, state) ∷ players) =
    (if first then [] else separator) ++ (entry id state ++ entries separator entry false players)

-- `printStatusBar`.
unfoldable pub status_bar : List (ℕ × PlayerState) → List ℕ
unfolding status_entry entries
status_bar players =
    (13 ∷ 27 ∷ codes "[K")
    ++ (double_rule
        ++ (codes "Players: "
            ++ (entries (codes ", ") status_entry true players ++ (endl ++ double_rule))))

-- `getScoreSummary`.
unfoldable pub score_summary : List (ℕ × PlayerState) → List ℕ
unfolding score_entry entries
score_summary players =
    if is_nil players
    then codes "Scores: (no players yet)"
    else codes "Scores: " ++ entries (codes " | ") (λ _. score_entry) true players

-- `printChatMessage`.
unfoldable pub chat_line : List ℕ → List ℕ → List ℕ
chat_line username message = codes "[" ++ (username ++ (codes "] " ++ (message ++ endl)))

unfoldable pub joined_line : PlayerState → List ℕ
unfolding bracketed
joined_line p =
    codes ">>> Player "
    ++ (bracketed p.id ++ (codes " " ++ (p.username ++ (codes " joined the game" ++ endl))))

unfoldable pub left_line : PlayerState → List ℕ
unfolding bracketed
left_line p =
    codes ">>> Player "
    ++ (bracketed p.id ++ (codes " " ++ (p.username ++ (codes " left the game" ++ endl))))

abbrev pub welcome : List ℕ
welcome =
    codes "Game state received. Ready to play!"
    ++ (endl
        ++ (codes "Type to chat, Enter to send, Ctrl+C to quit"
            ++ (endl ++ (codes "Remember: cast your vote anytime with /vote <username>." ++ endl))))

abbrev pub new_round : List ℕ
new_round = codes ">>> New round! Keep chatting and cast votes with /vote <username>." ++ endl

-- What a player is shown of the role, by the role.
unfoldable pub role_text : RoleAssignment → List ℕ
role_text a = elim a.role [
  | liar ↦
      codes "Role: LIAR"
      ++ (endl
          ++ (codes "Topic: "
              ++ (a.topic ++ (endl ++ (codes "Goal: Convince others you know the word!" ++ endl)))))
  | guesser ↦
      codes "Role: GUESSER"
      ++ (endl
          ++ (codes "Topic: "
              ++ (a.topic
                  ++ (endl
                      ++ (codes "Secret Word: "
                          ++ (a.secret_word
                              ++ (endl ++ (codes "Goal: Find the liar!" ++ endl))))))))
  | no_role ↦ []
  | unnamed n ↦ []
]

unfoldable pub role_screen : List (ℕ × PlayerState) → RoleAssignment → List ℕ
unfolding role_text score_summary status_bar
role_screen players a =
    endl
    ++ (double_rule
        ++ (codes "ROUND STARTED"
            ++ (endl
                ++ (double_rule
                    ++ (role_text a
                        ++ (double_rule
                            ++ (codes "Chat is live. When you suspect someone, vote with"
                                ++ (endl
                                    ++ (codes "  /vote <username>"
                                        ++ (endl
                                            ++ (score_summary players
                                                ++ (endl ++ status_bar players))))))))))))

-- The name of a player, or "Unknown".
unfoldable pub name_of : ℕ → List (ℕ × PlayerState) → List ℕ
name_of id players = elim (find id players) [ none ↦ codes "Unknown" | some p ↦ p.username ]

-- The loop over the tally.
unfoldable pub tally_lines : List (ℕ × PlayerState) → List (ℕ × ℕ) → List ℕ
unfolding name_of bracketed
tally_lines players [] = []
tally_lines players ((target, votes) ∷ tally) =
    (name_of target players
      ++ (codes " "
          ++ (bracketed target ++ (codes ": " ++ (to_string votes ++ (codes " vote(s)" ++ endl))))))
    ++ tally_lines players tally

unfoldable pub verdict_lines : List (ℕ × PlayerState) → VoteResult → List ℕ
unfolding name_of bracketed
verdict_lines players r =
    if not (r.winner_id == 0)
    then codes "Winner: "
      ++ (name_of r.winner_id players
          ++ (codes " "
              ++ (bracketed r.winner_id
                  ++ (endl
                      ++ (codes "Result: "
                          ++ ((if r.liar_caught
                                then codes "LIAR CAUGHT!"
                                else codes "LIAR SURVIVED!")
                              ++ endl))))))
    else codes "Result: No majority - no winner" ++ endl

unfoldable pub result_screen : List (ℕ × PlayerState) → VoteResult → List ℕ
unfolding tally_lines verdict_lines score_summary status_bar
result_screen players r =
    endl
    ++ (double_rule
        ++ (codes "VOTE RESULTS"
            ++ (endl
                ++ (double_rule
                    ++ (tally_lines players r.tally
                        ++ (single_rule
                            ++ (verdict_lines players r
                                ++ (double_rule
                                    ++ (status_bar players
                                        ++ (endl
                                            ++ (codes ">>> Scores updated! "
                                                ++ (score_summary players
                                                    ++ (endl
                                                        ++ (codes
                                                            "Waiting for the server to begin the next round..."
                                                            ++ endl))))))))))))))
