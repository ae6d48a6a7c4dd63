-- ===== src/GameState/Round.antt =====
-- `startNewRound` and `pickRandomTopicAndWord` of src/common/game_state.cpp.
-- `std::uniform_int_distribution<size_t>(0, b)` is a parameter: `random i b` is the number that the
-- `i`-th draw of a call gives for the upper bound `b`.
use cpptcpmultiplayer.Prelude.{
  ℕ, ◌-◌, ◌≤◌, true, ◌||◌, List, [], ◌∷◌, ltb, ◌==◌, if◌then◌else◌, length, get_or,
}
use cpptcpmultiplayer.Prelude.Text.{codes}
use cpptcpmultiplayer.Prelude.Maps.{map_values, keys}
use cpptcpmultiplayer.PlayerState.{PlayerState, set_role, liar, guesser}
use cpptcpmultiplayer.GameState.{GameState, clear_round}

abbrev pub Random : Type 0
Random = ℕ → ℕ → ℕ

-- What the distribution promises.
abbrev pub InRange : Random → Type 0
InRange random = (i b : ℕ) → random i b ≤ b

-- `TOPIC_WORDS`.
abbrev pub topic_words : List (List ℕ × List (List ℕ))
topic_words =
    (
      codes "Fruit",
      codes "Apple"
          ∷ codes "Banana"
          ∷ codes "Orange"
          ∷ codes "Grape"
          ∷ codes "Strawberry"
          ∷ codes "Watermelon"
          ∷ codes "Pineapple"
          ∷ codes "Mango"
          ∷ [],
    )
    ∷ (
      codes "City",
      codes "Paris"
          ∷ codes "Tokyo"
          ∷ codes "London"
          ∷ codes "New York"
          ∷ codes "Sydney"
          ∷ codes "Berlin"
          ∷ codes "Rome"
          ∷ codes "Moscow"
          ∷ [],
    )
    ∷ (
      codes "Animal",
      codes "Dog"
          ∷ codes "Cat"
          ∷ codes "Elephant"
          ∷ codes "Lion"
          ∷ codes "Tiger"
          ∷ codes "Bear"
          ∷ codes "Wolf"
          ∷ codes "Rabbit"
          ∷ [],
    )
    ∷ (
      codes "Color",
      codes "Red"
          ∷ codes "Blue"
          ∷ codes "Green"
          ∷ codes "Yellow"
          ∷ codes "Purple"
          ∷ codes "Orange"
          ∷ codes "Pink"
          ∷ codes "Black"
          ∷ [],
    )
    ∷ (
      codes "Food",
      codes "Pizza"
          ∷ codes "Burger"
          ∷ codes "Pasta"
          ∷ codes "Sushi"
          ∷ codes "Taco"
          ∷ codes "Salad"
          ∷ codes "Soup"
          ∷ codes "Sandwich"
          ∷ [],
    )
    ∷ (
      codes "Sport",
      codes "Soccer"
          ∷ codes "Basketball"
          ∷ codes "Tennis"
          ∷ codes "Swimming"
          ∷ codes "Running"
          ∷ codes "Cycling"
          ∷ codes "Golf"
          ∷ codes "Baseball"
          ∷ [],
    )
    ∷ []

-- The table is an argument, so that laws can be stated for every table.
unfoldable pub pick_topic_and_word : List (List ℕ × List (List ℕ)) → Random → List ℕ × List ℕ
pick_topic_and_word [] random = ([], [])
pick_topic_and_word (t ∷ table) random =
    let topic = get_or (t ∷ table) (random 0 (length table)) ([], []) in
    (topic.0, get_or topic.1 (random 1 (length topic.1 - 1)) [])

unfoldable pub pick_random_topic_and_word : Random → List ℕ × List ℕ
unfolding pick_topic_and_word
pick_random_topic_and_word random = pick_topic_and_word topic_words random

-- The loop that gives each player a role.
unfoldable pub assign_roles : ℕ → List (ℕ × PlayerState) → List (ℕ × PlayerState)
assign_roles liar_id players =
    map_values (λ id. set_role (if id == liar_id then liar else guesser)) players

unfoldable pub start_new_round : Random → GameState → GameState
unfolding clear_round assign_roles
start_new_round random g =
    if ltb (length g.players) 3 || ltb 6 (length g.players)
    then g
    else let cleared = clear_round g in
      let picked = pick_random_topic_and_word random in
      let player_ids = keys cleared.players in
      let liar_id = get_or player_ids (random 2 (length player_ids - 1)) 0 in
      record cleared {
        current_topic = picked.0;
        current_word = picked.1;
        current_liar_id = liar_id;
        players = assign_roles liar_id cleared.players;
        round_active = true;
      }
