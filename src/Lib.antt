-- ===== src/Lib.antt =====
-- A model of libsgfc++ (a C++ library for the Smart Game Format), and its theorems.
--
-- Parts. A client holds a document of games; each game is a tree of nodes (SgfcNode), which the
-- SgfcTreeBuilder of the game relinks and SgfcNodeIterator visits. A node has properties with values
-- that are texts; SgfcDocumentEncoder writes a document with all of them as SGF content, which SGFC
-- reads under the arguments of the client, and SgfcPropertyDecoder takes the texts from SGFC. The texts of game dates and of points on the board have
-- decoders and encoders of their own (SgfcDate, SgfcGoPoint), which use the string functions of
-- SgfcUtility and the number conversion of SgfcValueConverter.
--
-- Files and sources.
--   Tree.Store, Tree.Node     the links of src/document/SgfcNode.h as a record of three functions
--     from nodes to optional nodes, the commands on them, which end normally, with an exception or
--     not within the fuel, and the navigation of src/document/SgfcNode.cpp (GetLastChild,
--     GetChildren, GetPreviousSibling, IsAncestorOf, GetRoot, GetMainVariationNodes, ...).
--   Tree.Relink, Tree.Builder the private helpers and the public methods of
--     src/document/SgfcTreeBuilder.cpp: set_first is SetFirstChild, set_next is SetNextSibling,
--     reparent is SetParent, remove_node is RemoveNodeFromCurrentLocation, remove_node_and_next is
--     RemoveNodeAndAllNextSiblingsFromParent, insert_node is InsertNodeAtNewLocation; the other
--     methods keep their names.
--   Tree.Session              a client's calls as steps, and the states that are reached by them.
--   Tree.Chain, Places, Loops, Ancestor, Shape, Upto, Detach, Attach, Truncate
--     forests: lists of children that agree with the links, and what a relinking does to them.
--   Tree.Moves, Heads, NextSibling, Refusal, Settles, Query
--     what the methods do to a forest, when they throw, that they end, and what the queries answer.
--   Pointers                  vectors of shared pointers, with std::find and a std::set of them.
--   Document                  the games of a document, src/document/SgfcDocument.cpp.
--   Document.Parse            the constructor from the nodes of SGFC in src/document/SgfcDocument.cpp:
--     parse_games is its loop, parse_game_tree_depth_first is ParseGameTreeDepthFirst; Grown, Copied,
--     Trees and Portrayed say which nodes it makes.
--   Property                  the values of a property, src/document/SgfcProperty.cpp.
--   NodeProperties            the properties of a node in src/document/SgfcNode.cpp, with the
--     validation and the inherited properties; Valid and Valid.Edits say what the methods keep and
--     Inherited what a node inherits.
--   NodeIterator              src/document/SgfcNodeIterator.cpp; Walk has the recursive walk over the
--     finite tree that the links describe.
--   Game                      the searches for game info nodes in src/document/SgfcGame.cpp and
--     SgfcNode.cpp; Found says what they find.
--   Encoder                   src/parsing/SgfcDocumentEncoder.cpp; Escape and Values have a reader of
--     escaped values, Depth the text of a tree and of a document, Tokens and ReadBack a reader of
--     whole documents.
--   Unescape                  SimpleText and Text values in src/parsing/SgfcPropertyDecoder.cpp, with
--     the removal of line breaks and of escape characters, which only an enabled escape processing
--     has; Back and LineBreaks say what it takes back.
--   Arguments                 src/sgfc/argument/SgfcArgument.cpp and SgfcArguments.cpp, with
--     include/SgfcArgumentType.h; Shown has their texts for SGFC.
--   Text.Split                SplitString, StringStartsWith, StringEndsWith of src/SgfcUtility.cpp.
--   Text.Number               TryConvertStringToNumberValue of src/parsing/SgfcValueConverter.cpp.
--   Date.Valid, Date.Decode, Date.Encode
--     src/game/SgfcDate.cpp: the validity tests, FromPropertyValue and ToPropertyValue, each cut
--     into the parts of a round of its loop; Preceding holds the loop's variables.
--   PlayerRank                src/game/go/SgfcGoPlayerRank.cpp, with the regular expression for it in
--     src/SgfcPrivateConstants.cpp written out.
--   GameResult, RoundInformation, Ruleset
--     src/game/SgfcGameResult.cpp, src/game/SgfcRoundInformation.cpp and
--     src/game/go/SgfcGoRuleset.cpp, with their regular expressions written out.
--   Point                     the constructor and the getters of src/game/go/SgfcGoPoint.cpp.
--   Point.Again               src/game/SgfcBoardSize.cpp, next to the theorem that uses it.
--   Message                   the exit code and the data validity of a list of messages, in
--     src/SgfcUtility.cpp; Captured has src/sgfc/message/SgfcMessage.cpp and the hook of
--     src/sgfc/message/SgfcMessageStream.cpp.
--   Constants                 the tables of src/SgfcConstants.cpp and src/SgfcPrivateConstants.cpp with
--     their lookups in src/SgfcUtility.cpp, and HasTrait of src/document/SgfcNode.cpp.
--   Sgfc, Streams             the program SGFC as a parameter, a run being a trace of hook calls; the
--     streams of src/sgfc/message/SgfcMessageStream.cpp and src/sgfc/save/SgfcSaveStream.cpp with
--     their static variables.
--   Backend                   src/sgfc/backend: SgfcOptions.cpp in Options, the data wrapper, and
--     SgfcBackendController.cpp, whose load is in Load and save in Save.
--   CommandLine               src/sgfc/frontend/SgfcCommandLine.cpp; Idle, Regular, Saving, Sound and
--     Session say how sequences of calls end, Saved what a save in memory gives.
--   Frontend                  src/sgfc/frontend/SgfcDocumentReader.cpp and SgfcDocumentWriter.cpp; Ends
--     and Writes say how they end.
--   Common                    Boolean tests, lists and signed integers over the native numbers.
--   Tests                     the theorems and a test at concrete inputs.
--
-- Assumptions, bounds and fuel. The client holds a pointer to every node, so no node is destroyed
-- and a weak pointer to a parent gives the stored parent. Every loop of a tree builder call runs on
-- one fuel; Tree.Settles gives the fuel that is enough. A text is a list of bytes; an int has 32
-- bits, and stoi and the output of numbers are written out for the C locale. The decimal printer
-- has ten rounds, enough for every 32-bit number. The loop of SplitString has one round more than
-- the text has bytes, which is enough for a delimiter of one character.
-- The iteration and the encoder run on fuel for their loops, of which the number of nodes, taken
-- twice, and one round more are enough (steps of the tree). The searches take HasTrait of a node as a
-- function; a property keeps its type and its name. SGFC returns or fails to allocate memory after
-- finitely many calls of hooks, and it calls no other function of the library. A call of the command
-- line is one step: the mutex around the calls of SGFC is left out. SGFC keeps as many TreeInfo objects
-- as root nodes. A `char` has 8 bits, and `Rows + 1` of a board size can overflow. The document reader
-- takes the constructor of SgfcDocument, and the writer the outcome of Encode, as an argument; each may
-- be a std::logic_error.
--
-- Not modelled. The property values' classes, the game type and the board size of a game, the
-- rest of the property decoder with ParseProperties, game infos; the SGFC program, which is a git
-- submodule; the text of exceptions; the printing of a document for debugging; enumeration values
-- outside their enumeration.
pub mod Common
pub mod Text
pub mod Date
pub mod Tree
pub mod Pointers
pub mod Document
pub mod Property
pub mod NodeProperties
pub mod NodeIterator
pub mod Game
pub mod Encoder
pub mod Unescape
pub mod Arguments
pub mod PlayerRank
pub mod GameResult
pub mod RoundInformation
pub mod Ruleset
pub mod Point
pub mod Message
pub mod Sgfc
pub mod Streams
pub mod Backend
pub mod CommandLine
pub mod Frontend
pub mod Constants
mod Tests
