-- ===== src/GameServer/Runs.antt =====
-- The handlers at a game of three players, over a network that takes every packet whole.
use cpptcpmultiplayer.Prelude.{
  ℕ, ◌≡◌, refl, ◌↔◌, inl, inr, true, false, ◌&&◌, some, List, [], ◌∷◌, arith, ◌==◌,
}
use cpptcpmultiplayer.Prelude.Maps.{find, contains, insert, values}
use cpptcpmultiplayer.Prelude.Maps.Every.{Every}
use cpptcpmultiplayer.PlayerState.{PlayerState, set_role, guesser, no_role}
use cpptcpmultiplayer.Packet.{Packet, make_packet}
use cpptcpmultiplayer.GameState.{
  GameState, has_player, get_player_count, get_all_player_states, submit_vote, count_vote,
  get_vote_tally,
}
use cpptcpmultiplayer.GameState.Sample
use cpptcpmultiplayer.GameState.Round.{Random, InRange}
use cpptcpmultiplayer.GameState.Scores.{add_score, voted_for}
use cpptcpmultiplayer.GameState.Invariant.{IsValid}
use cpptcpmultiplayer.GameState.Voting.{votes_for}
use cpptcpmultiplayer.Server.Sample.{serving, table, reliable}
use cpptcpmultiplayer.ConnectionManager.{active, get_connection}
use cpptcpmultiplayer.GameServer.{World}
use cpptcpmultiplayer.GameServer.Ballot.{
  count_voted, count_ballot, settle, everybody_voted, finish_round,
}
use cpptcpmultiplayer.GameServer.Ballot.Majority.{wins, count_ballot_lem}
use cpptcpmultiplayer.GameState.Invariant.Steps.{next, votes, Reach-IsValid}
use cpptcpmultiplayer.GameServer.Ballot.Order.{SameVotes, with_votes, settle-SameVotes}
use cpptcpmultiplayer.GameServer.Ballot.Points.{rule_points, settle_lem}
use cpptcpmultiplayer.GameServer.Text.{is_vote_command, trim_back, find_target, vote_target_name}
use cpptcpmultiplayer.GameServer.Handlers.{handle_packet, handle_leave}
use cpptcpmultiplayer.GameServer.Handlers.Votes.{Ballots, Completes, all_vote-Completes}
use Prim.Native.String.{String}
use cpptcpmultiplayer.Prelude.Text.{codes}
use cpptcpmultiplayer.GameServer.Handlers.Keep.{handle_packet-IsValid}
use cpptcpmultiplayer.GameServer.Handlers.Rounds.{
  NextRound, reset_without, everybody_voted_lem, finish_round-NextRound, handle_leave-NextRound,
}

abbrev dice : ℕ → Random
dice i = Sample.lowest

dice-InRange : (i : ℕ) → InRange (dice i)
dice-InRange i = Sample.lowest-InRange

abbrev world : GameState → World
world g = record { server = serving (table active active active); game = g; draws = 0 }

abbrev guesser_one : PlayerState
guesser_one = Sample.player 1 65 guesser

-- Two of three votes are a majority, and the liar is caught.
caught : (count_ballot Sample.voted).liar_caught ≡ true
unfolding count_ballot get_player_count get_vote_tally count_vote find contains insert
caught = refl

one_plays : find 1 Sample.voted.players ≡ some guesser_one
unfolding find
one_plays = refl

settle_lem_example :
    find 1 (settle Sample.voted).players
    ≡ some (set_role no_role (add_score (rule_points Sample.voted 1 guesser_one) guesser_one))
settle_lem_example =
    settle_lem Sample.voted Sample.voted-IsValid (omega arith) 1 guesser_one refl (λ e. omega arith)
      one_plays

one_point : rule_points Sample.voted 1 guesser_one ≡ 1
unfolding wins votes_for voted_for find contains
one_point = refl

count_ballot_lem_example :
    ((t : ℕ)
      → wins t Sample.voted ≡ (
          (count_ballot Sample.voted).has_majority && ((count_ballot Sample.voted).winner_id == t)))
    × ((count_ballot Sample.voted).liar_caught ≡ wins 3 Sample.voted)
count_ballot_lem_example = count_ballot_lem Sample.voted Sample.voted-IsValid (omega arith)

-- The chat message "/vote A".
abbrev vote_command : Packet
vote_command = make_packet 16 (47 ∷ 118 ∷ 111 ∷ 116 ∷ 101 ∷ 32 ∷ 65 ∷ [])

handle_packet-IsValid_example :
    IsValid (handle_packet reliable dice vote_command 3 (world Sample.started)).game
handle_packet-IsValid_example =
    handle_packet-IsValid reliable dice dice-InRange vote_command 3 (world Sample.started)
      Sample.started-IsValid

everybody_voted_lem_example :
    (everybody_voted Sample.voted ≡ true)
    ↔ Every (λ id _. contains id Sample.voted.votes ≡ true) Sample.voted.players
everybody_voted_lem_example = everybody_voted_lem Sample.voted Sample.voted-IsValid

finish_round-NextRound_example :
    NextRound (settle Sample.voted) (finish_round reliable dice (world Sample.voted)).game
finish_round-NextRound_example =
    finish_round-NextRound reliable dice dice-InRange (world Sample.voted) Sample.voted-IsValid

two_plays : has_player 2 Sample.started ≡ true
unfolding has_player contains
two_plays = refl

handle_leave-NextRound_example :
    NextRound
      (reset_without 2 Sample.started)
      (handle_leave reliable dice 2 (world Sample.started)).game
handle_leave-NextRound_example =
    handle_leave-NextRound reliable dice dice-InRange 2 (world Sample.started)
      Sample.started-IsValid refl two_plays

-- The handler stores the vote of the player 3 for the player 1.
vote_stored :
    (handle_packet reliable dice vote_command 3 (world Sample.started)).game.votes ≡ (3, 1) ∷ []
unfolding handle_packet make_packet get_connection find is_vote_command trim_back find_target
    get_all_player_states values vote_target_name submit_vote contains everybody_voted
    get_player_count count_voted insert
vote_stored = refl

abbrev ballot : String → Packet
ballot text = make_packet 16 (codes text)

abbrev ballots : List (ℕ × Packet)
ballots = (1, ballot "/vote C") ∷ (2, ballot "/vote C") ∷ (3, ballot "/vote A") ∷ []

ballots-Ballots : Ballots reliable dice (world Sample.started) ballots
unfolding make_packet get_connection find contains trim_back is_vote_command vote_target_name
    find_target get_all_player_states values
ballots-Ballots = (
  record {
    info = _;
    connected = refl;
    chat = refl;
    command = refl;
    plays = refl;
    names = refl;
    not_nobody = refl;
  },
  (
    record {
      info = _;
      connected = refl;
      chat = refl;
      command = refl;
      plays = refl;
      names = refl;
      not_nobody = refl;
    },
    (
      record {
        info = _;
        connected = refl;
        chat = refl;
        command = refl;
        plays = refl;
        names = refl;
        not_nobody = refl;
      },
      tt,
    ),
  ),
)

nobody_yet : everybody_voted Sample.started ≡ false
unfolding everybody_voted count_voted get_player_count get_all_player_states values contains find
nobody_yet = refl

all_vote-Completes_example : Completes reliable dice (world Sample.started) ballots
all_vote-Completes_example =
    all_vote-Completes reliable dice ballots (world Sample.started) Sample.started-IsValid refl
      nobody_yet ballots-Ballots
      (inr (inr (inr (inl refl))), (inr (inr (inl refl)), (inr (inl refl), tt)))

-- The votes of the three players, given in another order.
abbrev other_order : List (ℕ × ℕ)
other_order = (1, 3) ∷ (2, 3) ∷ (3, 1) ∷ []

other_order-IsValid : IsValid (with_votes Sample.voted other_order)
unfolding submit_vote contains insert
other_order-IsValid =
    Reach-IsValid (next (next (next Sample.started-Reach (votes 3 1)) (votes 2 3)) (votes 1 3))

same_votes : SameVotes Sample.voted.votes other_order
unfolding find
same_votes k = ground arith

settle-SameVotes_example :
    find 1 (settle Sample.voted).players
    ≡ find 1 (settle (with_votes Sample.voted other_order)).players
settle-SameVotes_example =
    settle-SameVotes Sample.voted other_order 1 guesser_one Sample.voted-IsValid other_order-IsValid
      same_votes (omega arith) (omega arith) refl (λ e. omega arith) one_plays
